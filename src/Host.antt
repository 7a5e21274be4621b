-- ===== src/Host.antt =====
-- src/host: the catalog of apps that the host streams, and the clients that it trusts.
pub mod ClientTrust
pub mod HostApps
pub mod Backend
pub mod Methods
