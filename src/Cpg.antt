-- ===== src/Cpg.antt =====
-- The game servers' shared layer, ASIO_ALONE_STUDY/CPG.
pub mod Framing
pub mod BetAlgorithm
pub mod ToCentral
