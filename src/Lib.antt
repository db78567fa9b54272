-- ===== src/Lib.antt =====
-- pingweave measures the network between hosts by pings over RDMA (InfiniBand and RoCE), UDP and
-- TCP. This library models its C++ part, the code that times the pings and reports them.
--
-- How the parts interact. A scheduler (src/scheduler.hpp, src/tcpudp_scheduler.hpp,
-- src/rdma_scheduler.hpp) names the next address. The client enters the ping in a table and sends
-- it; for RDMA the completion of the send, the PONG and the ACK of the server fill in the entry,
-- for UDP and TCP the PONG does. A complete ping, or one whose entry expires, is handed over a queue
-- to the result thread, which gathers the results for each destination and writes a report into a
-- ring in shared memory at intervals. The RDMA server keeps a table of its own from the arrival of
-- a PING until its PONG has left, and then sends the ACK with its delay.
--
-- Which file models what.
--   Base              shared names, Boolean tests, lists, bit operations, signed integers
--   Common            src/common.cpp: ping identities, time differences, addresses
--   Messages          src/format.hpp: messages, results, constants
--   Table             what src/rdma_ping_info.hpp, src/tcpudp_ping_info.hpp and
--                     src/rdma_ping_msg.hpp share: a map (`map`, an association list), the list of
--                     keys by age (`key_list`, with iterators as numbers), expiry and insertion
--   RdmaPinginfoMap   `RdmaPinginfoMap` of src/rdma_ping_info.hpp
--   TcpUdpPinginfoMap `TcpUdpPinginfoMap` of src/tcpudp_ping_info.hpp
--   PingMsgMap        `PingMsgMap` of src/rdma_ping_msg.hpp
--   Ini               `IniParser` of src/ini.hpp, the readers of src/common.cpp built on it, and the
--                     log levels of src/logger.hpp
--   Gid               GIDs as text, in src/rdma_common.cpp
--   Devices           src/rdma_common.cpp and src/common.cpp: local addresses, the device, port, GID
--                     index and traffic class of an address, and the file with its information
--   RdmaContext       src/rdma_common.cpp: address handles, posting, set-up and clean-up
--   RdmaServer        src/rdma_server.cpp: the handlers, the functions of its three threads, and the
--                     interleaving of their rounds
--   RdmaClient        src/rdma_client.cpp: the handlers and the functions of three of its threads
--   Exchange          an RDMA client and an RDMA server together; a UDP client, its server and the
--                     result thread together
--   Pinglist          what both schedulers read from pinglist.yaml and address_store.yaml
--   Scheduler         the constructor, `next` and `load_address_info` of both schedulers
--   Results           the result threads of src/rdma_client.cpp, src/udp_client.cpp and
--                     src/tcp_client.cpp from their start to their reports, and
--                     `calc_result_stats` of src/common.cpp
--   ReportText        the text of a report, in src/common.cpp, src/rdma_common.cpp and
--                     src/tcpudp_common.cpp
--   Udp               the sockets and messages of src/tcpudp_common.cpp over UDP, the loop of
--                     src/udp_server.cpp and both threads of src/udp_client.cpp
--   Tcp               the sockets and messages of src/tcpudp_common.cpp over TCP, and the loops of
--                     src/tcp_client.cpp and src/tcp_server.cpp that start a thread for each
--   Http              posting a message to the controller, in src/common.cpp
--   Ipc               `ProducerQueue` of src/ipc_producer.hpp, and its consumer
--   Threads           the loop in a `try` that all the functions of threads have
--   Supervisor        the loops at the end of `rdma_server`, `rdma_client`, `udp_client` and
--                     `tcp_client` that look after the threads
--   Mains             `main` of the six programs, and what they do before their loops
-- The functions and fields have the names of the source in snake case. A module's children hold
-- the proofs about it, and `Tests` runs them on concrete values.
--
-- How state and time are modelled. An operation takes the state and returns it with its answer.
-- Each public method of a table holds the table's lock, so one call is one step (`empty` and `size`
-- too, although they hold it shared); the steps of several threads are given as a sequence or as a
-- step relation. A reading of a clock is an argument, in ns. Words keep their width: uint64_t and
-- uint32_t results are taken modulo 2 ^ 64 and 2 ^ 32. The rounds of a thread are a list. Loops
-- go through a list or count down; fuel stands only for the consumer's loop over the ring, where
-- more rounds than messages are enough, and for the digits of a number n, where n is enough. Text is
-- a list of character codes.
--
-- Parameters: the verbs library and the NIC behind it (`Verbs`), the lock-free queues
-- (`try_enqueue`), `inet_pton` (`Net`), `inet_ntop`, `localtime` with `strftime`, and what fkyaml
-- makes of the files (`Pinglist`). The answers of system calls are inputs.
--
-- Not modelled: writing the log and the help text, the byte order of hosts that are not
-- little-endian, the mapping of the shared memory, `delete_files_in_directory` of src/common.cpp
-- (nothing calls it), the Python agent and controller, and the vendored libraries (spdlog, fkyaml,
-- readerwriterqueue), whose calls are parameters. An exception that leaves the function of a thread
-- ends the process, as the C++ standard has it; that is written into the steps of `Supervisor`.
-- An `unordered_map` has the order of insertion. A buffer of a NIC has one message in a round of its
-- completion queue. What follows an uninitialised context (`save_device_info` after a failed set-up of
-- the RX context, `get_context_by_ip` where no interface matches) is no part of the model.
pub mod Base
pub mod Common
pub mod Table
pub mod Messages
pub mod RdmaPinginfoMap
pub mod TcpUdpPinginfoMap
pub mod PingMsgMap
pub mod Ini
pub mod Gid
pub mod Devices
pub mod RdmaContext
pub mod RdmaServer
pub mod RdmaClient
pub mod Pinglist
pub mod Scheduler
pub mod Results
pub mod ReportText
pub mod Udp
pub mod Tcp
pub mod Http
pub mod Ipc
pub mod Threads
pub mod Exchange
pub mod Mains
pub mod Supervisor
