-- ===== src/Net/Logging.antt =====
-- ASIO_ALONE_STUDY/Net/logging/Logging.hpp and Logging.cpp: how a line is formatted, and how a thread
-- writes the lines to files. Text is a list of bytes, those of ASCII.
pub mod Stream
pub mod Digits
mod Hex
pub mod Room
pub mod Lines
pub mod Async
pub mod Sound
mod Take
mod Write
pub mod Order
pub mod File
mod Tests
