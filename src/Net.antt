-- ===== src/Net.antt =====
-- src/net: the GameStream protocol, between the client and its hosts.
pub mod Hex
pub mod Xml
pub mod PairingCrypto
pub mod Pairing
pub mod Store
pub mod Http
pub mod HttpClient
pub mod Network
pub mod AppList
pub mod Launch
pub mod Identity
