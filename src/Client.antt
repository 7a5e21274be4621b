-- ===== src/Client.antt =====
-- src/client: the settings of a stream and the control methods of client mode.
pub mod StreamConfig
pub mod Session
pub mod VideoRenderer
pub mod StreamWindow
pub mod AudioRenderer
pub mod World
pub mod Methods
pub mod Start
pub mod StreamMain
