-- ===== src/Lib.antt =====
-- A verification library for asio_utils, a set of game servers over a TCP library on asio.
--
-- The program. `ASIO_ALONE_STUDY/Net` is the TCP library: `DataBuffer` holds the bytes between a
-- socket and the code, `NetPacket` puts a message behind a header of twelve bytes, `TCPSession` is a
-- connection with an input and an output buffer, `TCPConnector` connects out and retries, and
-- `ObjectIndexPool` gives the sessions of a `TCPSessionManager` their ids. `ASIO_ALONE_STUDY/CPG` is
-- what the servers share: `CPGServerSession` and `CPGClientSession` cut the input of a session into
-- packets and answer heart beats. `CentralServer` owns the matches and distributes them over the
-- match servers that are connected. `GateWay` passes the messages of the clients on to the servers, and
-- the answers back. `MatchServer` has the matches that the central server gives it, and counts their
-- players.
--
-- The files, and the code that each models:
--   Base, Base/*       Boolean tests on numbers, conditionals, chains of optional results, lists
--                      measured by native numbers, writes into arrays, little-endian words
--   Net/Buffer         ASIO_ALONE_STUDY/Net/DataBuffer.hpp. `reader_index`, `writer_index`,
--                      `buffer` and `is_operating` are the fields; `append`, `retrieve`,
--                      `ensure_writable_bytes`, `make_space` and the others are the methods of the
--                      same names. Buffer/Inv has the invariant, Buffer/Refine the view of a buffer
--                      as a byte queue, Buffer/Ints the integers
--   Net/Packet         ASIO_ALONE_STUDY/Net/base/FASIOType.h (`PacketHeader`)
--                      and ASIO_ALONE_STUDY/Net/Util/NetPacket.cpp
--   Net/Session        ASIO_ALONE_STUDY/Net/TCPSession.cpp. `hand_read` and `hand_write` are the
--                      completions of the reads and writes, `hand_close`, `shutdown`, `force_close` and
--                      `connect_destroyed` the ways it ends. Session/Outgoing is about the bytes it
--                      sends, Session/Closing and Session/Once about its end
--   Net/Connector      ASIO_ALONE_STUDY/Net/TCPConnector.cpp, with the timer, the resolver and
--                      the socket as events
--   Net/IndexPool      ASIO_ALONE_STUDY/Net/Util/ObjectIndexPool.hpp. IndexPool/Slots and IndexPool/Removal
--                      are about adding and removing an object
--   Net/Sessions       ASIO_ALONE_STUDY/Net/TCPSessionManager.cpp, and `ClientSession` of
--                      TCPSession.cpp. Sessions/Ids is about the ids and the close callback,
--                      Sessions/Deliver about what is sent
--   Net/Services       ASIO_ALONE_STUDY/Net/ServiceKernel.cpp, the connections of a server to others
--   Net/Active         ASIO_ALONE_STUDY/Net/Util/Active.hpp, the mutex, the condition and the threads
--                      as steps in any order
--   Net/ObjectPool     ASIO_ALONE_STUDY/Net/Util/ObjectPool.hpp. ObjectPool/Cells is about the blocks of
--                      memory, ObjectPool/Runs about pools of plain pointers, ObjectPool/Shared about
--                      the pool of shared pointers
--   Net/TimerManager   ASIO_ALONE_STUDY/Net/TimerManager.cpp and TimerManager.hpp
--   Net/Logging        ASIO_ALONE_STUDY/Net/logging/Logging.hpp and Logging.cpp. Logging/Stream has
--                      `LogStream`, `convert` and the parts of a line, Logging/Async has `AsyncLogging`
--                      with its thread, Logging/File has `AppendFile` and `LogFile`; Digits, Lines,
--                      Order and File/Rolls there are about them
--   Cpg/Framing        ASIO_ALONE_STUDY/CPG/Net/CPGNetSession.cpp, the loop of
--                      `defaultMessageCallback`
--   Cpg/ToCentral      ASIO_ALONE_STUDY/CPG/Net/CPGToCentralSession.cpp, the loop and the handlers of the
--                      session to the central server; ToCentral/Register has what `sendRegisterData` tells of
--                      the configuration, ToCentral/Told is about it
--   Cpg/BetAlgorithm   ASIO_ALONE_STUDY/CPG/BetAlgorithm.cc, the searches of a sorted table
--   Gate               GateWay/GateWay/GSKernel.cpp and the handlers of ClientSession.cpp,
--                      G2CSession.cpp, G2LSession.cpp and G2MSession.cpp. Gate/Delivery is about
--                      what is sent to whom, Gate/Matches about the table of the match servers,
--                      Gate/Routing about a service that closes
--   Central/Distribution
--                      CentralServer/CentralServer/Class/MatchManager: CSMatchDistDefine.h,
--                      CSMatchLoadedEvaluation.cpp, CSMatchDistribution.cpp
--   Central/Manager    CSMatchManager.cpp there: the waiting changes (`update_match_service`,
--                      `remove_match_service`), the round `update_dist` that settles them and calls
--                      `distribute`
--   Central/Matches    CSMatchManager.cpp too: cancelling (`cancel_match`) and creating matches
--                      (`create_match`, then `created_matches` when the database has answered)
--   Central/Check      CSMatchManager.cpp too: `checkServiceDistMap`, when a match server says what it has
--   Central/Kernel     CentralServer/CentralServer/Class/Net/CSKernel.cpp. Kernel/Servers is the table,
--                      Kernel/Register a registration, Kernel/Answers the other requests; Kernel/Gates,
--                      Kernel/Connects, Kernel/Welcome and Kernel/Stale are about the choice of a
--                      gate, what a server is told, a registration as a whole and a null entry
--   Central/Promises   CentralServer/CentralServer/Class/PromiseFutureQueue.cpp
--   MatchServer        MatchServer/MatchServer: MSMatchManager.cpp, MSKernel.cpp, M2CSession.cpp and
--                      GateSession.cpp. MatchServer/Counts is about the players, MatchServer/Central
--                      about the exchange with the central server after a reconnection
--
-- How the parts meet: a session keeps two buffers of Net/Buffer, and its theorems rest on those of
-- Buffer/Refine; the packet loop of Cpg/Framing reads an input buffer of Net/Buffer through the
-- headers of Net/Packet. The session manager of Net/Sessions has the sessions of Net/Session in the
-- pool of Net/IndexPool, frames with the headers of Net/Packet and gives its clients the connectors of
-- Net/Connector. The session of Cpg/ToCentral runs the loop of Cpg/Framing, and its handlers make the
-- connections of Net/Services. The gate sends with the session manager, and hears of its services from
-- the kernel of Net/Services. The manager's round settles the waiting changes and then runs the
-- distribution, on whose theorem that of the round rests. The central server's kernel calls the
-- manager when a match server registers, is lost or reports its matches, and it answers what
-- Cpg/ToCentral/Register registers. MatchServer/Central runs the question of a match server through
-- that kernel, and what the kernel sends through the handlers of the match server.
--
-- How the code is modelled. A failed assertion, and the dereference of a null or end iterator, is
-- `none`. What an object asks of the socket, the resolver, the timer or its owner is logged in a list
-- of effects, oldest first. Callbacks are arguments. An `int32` is its bit pattern below 2 ^ 32,
-- `size_t` differences wrap, and the counts of the pool are taken modulo 2 ^ 32. A `std::map` is the
-- list of its entries in the order of the keys, an `unordered_map` in some order of iteration. asio
-- itself is not modelled: the completions that it delivers are arguments of the steps, in any order.
--
-- Fuel. The packet loop runs on fuel, since a header can make it run for ever; a fuel of one more than
-- the bytes in the buffer is enough for the streams of the properties. The binary search runs on one more
-- than the size of its table, which its property shows to be enough. The conversion of a number runs on
-- twenty digits, sixteen for a pointer, and the loop of `AppendFile::append` on one more than the bytes
-- of the line, which theirs show. Everything else is structural recursion.
--
-- Not modelled: threads and the io contexts, the text of times, with the assertions on its length,
-- and of floating-point numbers, the database and web layers, the kernels of the login and balance
-- servers, the handlers that only call the kernels, the match manager's update of a match; generated
-- protocol buffers and the third-party code (asio, json, crow, the web server, the MySQL client),
-- which the modelled code does not need.
mod Base
pub mod Net
pub mod Cpg
pub mod Central
pub mod Gate
pub mod MatchServer
