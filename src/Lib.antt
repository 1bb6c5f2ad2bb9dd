-- ===== src/Lib.antt =====
-- freepacket sends generated packets through a pipeline of threads: generators fill packets and pass
-- them to parsers, parsers make a flow of each packet and pass it to a manager, and managers collect
-- the payloads of a flow in a session of a hash table. Everything between the threads goes through
-- bounded queues, and every buffer comes from a pool, which is such a queue.
--
-- The files, and the code that they are about (paths from the root of the repository):
--
-- Base: words of 8, 16, 32 and 64 bits as numbers below 2 ^ w with the wrap-around written out, arrays
--   as lists, Boolean tests, the outcome of a call that may wait or overrun. Base/Places has lists up to order; Base/Text has strings and
--   the numbers of `printf` as lists of characters.
-- Memory: byte buffers on a little-endian host, `memcpy`, loads and stores, htons and htonl.
--   Memory/Frame and Memory/Append have the lemmas on what a write changes.
-- Queue: queue_intel.h. `enqueue`, `enqueue_multiple`, `dequeue` and `dequeue_multiple` are the
--   functions of INTEL_QUEUE, each one critical section; `none` is the return value -1. Queue/Fifo is
--   what a queue promises, Queue/Single, Queue/Multiple and Queue/Run relate the two, Queue/Wrap has
--   what happens to counters beyond 32 bits.
-- Crc, Checksum: checksum.c and crc32.c. A buffer is the list of its bytes, or of its 16-bit words for
--   the Internet checksum. Crc/Bitwise has the definition by the shift register.
-- ListHead: list.h. The `next` and `prev` of all nodes are two functions of an address; ListHead/Chain
--   says when they are a ring of given nodes, ListHead/Insert, ListHead/Delete and ListHead/Walk have
--   the operations and the two loops.
-- Config: config.c and config.h. Config/Lines is the reader of the configuration file, on the
--   characters of the file; Config/Chars has the functions of the C library that it uses, Config/Keys
--   the names of the settings, Config/Mac the Ethernet addresses, Config/Defaults `init_config_s`,
--   Config/Clock `get_cpu_mhz`; Config/Bounds and Config/Reload are about what the readers leave.
-- Generator: packet_generator.c. The construction of a packet in its buffer, at the offsets of the
--   source; Generator/Loop fills the pool and runs the loop of `packet_generator`, one round at a time;
--   Generator/Start is how a generator gets there, Generator/Collector the loop that takes frames from
--   the network card, Generator/Thread the choice between the two; Generator/Refresh
--   is what a round writes into its packet, Generator/Steady
--   is the loop of a pipeline that ends at the generator.
-- Parser: packet_parser.c. Flow items and hashes; Parser/Loop is one round of `packet_parser_loop`,
--   Parser/Distribute and Parser/Round are about where its flows and packets go, Parser/Start is
--   `init_single_parser`.
-- Session: hash.c and the session functions of packet_manager.c, the table of one manager with its
--   pool of sessions. Session/Starts, Session/Extends and Session/Add have the branches of
--   `hash_add_item`, Session/Expire and Session/Sweep the two loops of `hash_travel_delete`.
--   Session/Refine reads the table as a map from flows to bytes; Session/Life and Session/Calls have
--   the calls on one table in any order, Session/Places the addresses of its nodes; Session/Links runs the loops of a
--   bucket over the links of list.h.
-- Manager: the loop of packet_manager.c, one round at a time, and `next_prime` and `hash_create` of
--   hash.c; Manager/Start is `init_signle_manager` and a round of `process_all_session`, and
--   Manager/Sessions the table that it leaves.
-- LossRatio: lossratio.c, the request for an update speed and the sum of `drop_ratio`. LossRatio/Dialog
--   has `process_ipc_request` and `start_ipc_client`, with what a read of the socket gives as an
--   argument; LossRatio/Counters is about what the client prints.
-- Pipeline: one packet of the generator, the flow that the parser makes of it and the session that the
--   manager puts it in. Pipeline/Circle has a generator and a parser around one pool, whose rounds
--   come in any order; Pipeline/Sound, Pipeline/Turns and Pipeline/Schedule are about these.
--   Pipeline/Trio puts managers next to them, at a depth of 4. Their queues are one store of flows:
--   Pipeline/Flows and Pipeline/Store have what goes in and out of it, Pipeline/Whole the invariant,
--   Pipeline/Handed the lists of a batch, Pipeline/Hands and Pipeline/Returned the rounds that keep
--   it, Pipeline/Moves any order of them.
--   Pipeline/Started and Pipeline/Begun go there from `main`. At a depth of 5 the managers have
--   sessions, and another thread ends the old ones: Pipeline/Fits says which packets and flows a
--   session can take, Pipeline/Full has the invariant and Pipeline/Rounds any order of the rounds,
--   and Pipeline/Deep goes there from `main`.
-- Print: parse.c. The output is the list of its characters; Print/Names has the two tables of names,
--   Print/Dump reads a dump back, Print/Frame is about the packets of the generator.
-- Display: display.c, the state machine of `sys_display` and the numbers of both displays.
-- Startup: simulation.c, the options of the command line and the configuration that `main` gets to.
--   Startup/Groups has the rest of `main` with `init_manager_group`, `init_parser_group` and
--   `init_generator_group`: the state of each thread, and the threads in the order of their creation.
--   Startup/Begin is about what they leave.
-- Tests: the theorems on concrete inputs.
--
-- A loop that the source runs without a bound runs on fuel here. The carry loop of the checksums has
-- three tests, which are always enough; the loop of `pop_payload` ends within one test more than the
-- bytes wanted; `next_prime` ends when a prime lies within the fuel, and
-- `hash_create` keeps the `int`s of the source, with `sizeof(bucket_t)` as an argument. A wait for another thread has the
-- result `spins`: a round is what one thread does while no other acts, and the theorems say when it
-- does not wait. A write outside a buffer that no test rules out has the result `overruns`.
--
-- Not modelled: mutexes, since each function of a queue and each access to a bucket is one critical
-- section; the pool that a packet or flow points to is the one pool of the state; the waits for the
-- clock of `speed_mode`, which change no state; the cancelling of threads; the layout of the lines of
-- display.c, the sockets of lossratio.c, and everything of TILERA_PLATFORM (mpipe.c, queue_tilegx.h). A
-- thread that is created makes no round before `main` comes to `sys_display`, and memory is
-- always given but for a negative number of bytes. A parser at a depth of 4 or more that waits for flow items has its packets counted as still in its
-- queue, since it has done nothing with them, and a manager that waits for a free session has its
-- flow counted as still in its queue. It holds the lock of its bucket meanwhile, so the program has fewer
-- orders than the model then. The headers of the network card are declarations of a vendor's library.
-- The time stamp counter, the memory that `malloc` returns, the frames of the network card, what
-- `getopt_long` returns and the arithmetic of `double` are arguments.
pub mod Base
pub mod Queue
pub mod ListHead
pub mod Crc
pub mod Checksum
pub mod Memory
pub mod Config
pub mod Generator
pub mod Parser
pub mod Session
pub mod LossRatio
pub mod Startup
pub mod Pipeline
pub mod Print
pub mod Display
pub mod Manager
pub mod Tests
