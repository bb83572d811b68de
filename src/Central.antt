-- ===== src/Central.antt =====
-- CentralServer/CentralServer/Class: the server that owns the matches and hands them to the match
-- servers.
pub mod Distribution
pub mod Manager
pub mod Matches
pub mod Check
pub mod Kernel
pub mod Promises
