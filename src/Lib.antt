-- ===== src/Lib.antt =====
-- nullrvsim is a simulator of multi-core RISC-V systems. This library models the parts of it that
-- compute: what an instruction means, the queues between pipeline stages, the integer units, the
-- storage of a cache, the first-level cache, the last-level cache with its directory and the
-- memory node of the MOESI protocol with their messages, the caches of a simpler protocol over
-- snooped bundles, the routes and packages of the bus, the containers that stages share, and the
-- page tables of a simulated thread.
--
-- How the parts interact. The fetch unit classifies raw words with the pdec_ functions and asks
-- them for jump targets; the decode stage runs decode_rv64 on the same words; the cores pass the
-- decoded instructions from stage to stage in SimpleTickQueues, which move once a cycle in
-- apply_next_tick; the execution units call the perform_ functions on register values; loads and
-- stores find their lines in the GenericLRUCacheBlock of a first-level cache and their
-- outstanding misses in its MSHRArray; a miss becomes a message, which construct_msg_pack packs,
-- the bus cuts into packages and leads along its route table, and the other side parses; the
-- answers come in through handle_received_msg_nolock, from another cache or in the end from a
-- memory node, as the directory of an LLCMoesiDirNoi node decides; and the addresses come from a
-- ThreadPageTable, whose pages a PhysPageAllocator hands out.
--
-- The files:
--   * Prelude: the names that the others share. Tests has the Boolean tests and the conditional,
--     Lists lists over the native numbers, Assoc std::unordered_map, Sets sets of numbers, Bits
--     bit fields, Words arithmetic of 32 and 64 bits.
--   * Isa: src/cpu/isa.h, src/cpu/isa.cpp and the codes of src/cpu/amo.h. Codes has the
--     enumerations, Fields GET_BITS_AT and the immediates, Decoded the struct RV64InstDecoded,
--     Decode decode_rv64 (one function for each branch of its chain), Compressed decode_rv64c
--     (one child for each quadrant), Predecode the pdec_ functions. Encode and Expand are written
--     from the RISC-V manual: the formats, and the expansion of compressed instructions.
--   * TickQueue: SimpleTickQueue of src/tickqueue.h. Model has the version with three lists,
--     which the header file keeps in a comment; Window reads the circular buffer as lists.
--   * TickList: LimitedTickList, TickList, TickMap and TickMultiMap of src/tickqueue.h.
--   * Operation: the integer parts of src/cpu/operation.cpp.
--   * Cache: src/cache/cachecommon.h.
--   * PageMap: src/sys/pagemmap.h. Alloc has PhysPageAllocator, Segments the loops over the list
--     of mapped segments, Table the methods of ThreadPageTable.
--   * SimError: src/simerror.h.
--   * Moesi: src/cache/moesi. Codes has the constants of protocal.h, Message the packets of
--     protocal.cpp. L1 is the state of L1CacheMoesiDirNoiV2 (l1cachev2.h) and its children are
--     l1cachev2.cpp: Access load, store, load_reserved, store_conditional and amo; Forward,
--     Install and Handle the branches of handle_received_msg_nolock, one function for each type
--     of message, and handle_new_line_nolock; Port recieve_msg_nolock, send_msg_nolock and
--     apply_next_tick. Occupancy, Placing, Separate and Keeping are about where a line is,
--     Pushing and Capacity about the send buffer, Progress about the assertions at a line that
--     arrives, Memory about reads and writes, Reservation about reserved addresses, Order about
--     what is sent. MemNode is memnode.cpp. Llc is the state of LLCMoesiDirNoi (lastlevelcache.h)
--     and its children are lastlevelcache.cpp: Fetch p1_fetch, Index and Puts the requests of
--     p2_index, Stage the rest of it, Process p3_process and the cycle. Owners is about the
--     entries of the directory, Invalidations about what is sent, Lost about a dirty line, Room
--     about the buffers.
--   * SimpleCc: src/cache/simplecc. Port is SCCBundle, L1 SimpleCoherentL1 (sccl1.cpp), Llc
--     SimpleCoherentLLCWithMem (sccllc.cpp). Handshake is about the bundle, Owned and Memory
--     about a first-level cache, Holders and Arbiter about the last level, Readu, Cycles and
--     Transfer about the way of a line from one cache to another.
--   * Bus: src/bus. Mapping is the interface BusPortMapping of businterface.h, Routes has the
--     route tables of routetable.cpp, Packs the packages that SymmetricMultiChannelBus::send and
--     recv of symmulcha.cpp make and take, Endpoint what send does to a port, Node its
--     process_node, Tick process_edge and a cycle. Joined and Delivery are about send and recv,
--     Order, Reorder and Message about packages that arrive in any order, Latency about the
--     pipeline of a node, Edges about process_edge; Load, Conserve and Cycle count the packages in
--     a cycle of the whole bus, and Wired, Running, Always and Sending are about nodes, edges and
--     ports that fit together.
--   * Utils: src/utils: Saturate, Storage, Tagged, Handshake, Pipe, Plru and Ram are
--     saturate.hpp, storage.hpp (two files), pipe.hpp (two files), replacer.hpp and blockram.hpp.
--
-- Conventions. A struct is a record and a method a function from its state to the next; an out
-- parameter is a result; `none` is a failed assertion or a null pointer, as the comment at the
-- definition says. Integers are natural numbers with the wrap-around of their width written out,
-- and a mask of ones stands for a sign extension as in the source. The enumerations are numbers,
-- since the source casts raw bits to them. Locks are taken and released inside one method, so
-- that a method is one step.
--
-- Loops. Most are recursion on the number of rounds, which the source's bounds give: `size /
-- 4096` pages in init_segment, the difference of the ends in __alloc_multi_page and free_mmap,
-- `cnt` in pass_to. The inner loop of genroute_double_ring has as much fuel as there are nodes
-- (see Bus.DoubleRing). The loop of SimpleTickQueue::clear that copies the entries out is on
-- fuel, and no theorem is about it.
--
-- What the bus delivers, whether it has room, the ports of the nodes (BusPortMapping) and the
-- place of a line in memory (MemCtrlLineAddrMap) are arguments of the methods that ask for them.
--
-- Not modelled: printing of instructions, floating point (it is the host's), pgcpy_hostmem_to_va
-- (it copies host memory), TickSet of src/tickqueue.h, the queues of waiting operations of the
-- first-level cache, the private second-level cache and the DMA ports of src/cache, the routes of
-- a mesh, ReplacerRandom, the pipes without a handshake,
-- BitVec and uint.hpp of src/utils, and the parts of the simulator beside those above: the cores,
-- system calls, configuration and output. Vendored libraries (src/elfio, src/easylogging++) are
-- not code of the program.
pub mod Prelude
pub mod Isa
pub mod TickQueue
pub mod TickList
pub mod Operation
pub mod Cache
pub mod PageMap
pub mod SimError
pub mod Moesi
pub mod SimpleCc
pub mod Utils
pub mod Bus
