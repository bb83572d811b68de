-- ===== src/Central/Kernel.antt =====
-- CentralServer/CentralServer/Class/Net/CSKernel.cpp: the servers that have registered. A session is its
-- address, and `at` is the memory. An entry of the table is `none` where the map holds `nullptr`;
-- dereferencing it is `none` too. What `parseProtoMsg` makes of a message is an argument, `none` where it
-- cannot be parsed; what is sent is logged, oldest first, by its target, the id and the extra id of its
-- header, and what is serialised. An `int` or an address is a number.
mod Servers
mod Register
mod Answers
pub mod Stale
pub mod Gates
pub mod Connects
pub mod Welcome
mod Tests
unfoldable pub use Servers.*
unfoldable pub use Register.*
unfoldable pub use Answers.*
