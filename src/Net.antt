-- ===== src/Net.antt =====
-- The networking library of ASIO_ALONE_STUDY/Net.
pub mod Buffer
pub mod Packet
pub mod Session
pub mod Connector
pub mod IndexPool
pub mod ObjectPool
pub mod Active
pub mod Sessions
pub mod Services
pub mod Logging
pub mod TimerManager
