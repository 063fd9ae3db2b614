-- ===== src/Lib.antt =====
-- p-base is a base library in C++: a zero-copy buffer over reference-counted blocks (ZBuffer),
-- logging, timers, object pools, addresses, time and number conversions.
--
-- Parts, and the files that model them:
-- * ZBuffer is the zero-copy buffer of include/p/base/zbuffer.h and src/zbuffer.cpp.
--   ZBuffer/Block has `struct Block`: its counts, its creation, and what happens when the last
--   reference goes. ZBuffer/Cache has `ThreadLocalBlockCache`, the list of blocks with room that
--   a thread keeps. ZBuffer/Ref has `BlockRef`, a stretch of a block, `BlockRefArray`, a ring of
--   them, and `acquire_block_ref_array`, which finds room for a ring inside a block.
--   ZBuffer/Buffer has `class ZBuffer`, which is two references or a ring of them: the
--   operations that add references stand in ZBuffer/Buffer itself, those that take bytes out in
--   ZBuffer/Buffer/Read, and `append` of characters, which writes them, in ZBuffer/Buffer/Write.
--   The operations of one thread share a `Memory`: the blocks by number, their bytes, the cache
--   and the totals. The cache is reached by dropping a last reference, so every operation passes
--   the memory on. An access to a freed block sets `fault`, or gives `none` where the code would
--   go on from it.
-- * Time has the conversions of include/p/base/time.h.
-- * Timer is include/p/base/timer.h and src/timer.cpp: the timer with its version, the buckets,
--   and the sleep of the timer thread. Timer/Loop has the rounds of `TimerThread::Run`, with the
--   calls of other threads between its parts as inputs; `std::push_heap` and `std::pop_heap` are
--   parameters (Timer/Heap), and a sorted list is one choice of them; `none` is the failed
--   assertion of `run_and_delete`. Timer/Protocol has the atomic steps of `add_timer`,
--   `cancel_timer`, `try_delete` and `run_and_delete` on one timer of the pool, which come in
--   any order; any number of calls of `cancel_timer` may be under way, and a timer at which that
--   assertion fails is in a place of its own, as the program ends there. A timer of the pool is
--   used again, under a name with a version that is 3 higher modulo 2 ^ 32.
-- * ObjectArena is include/p/base/object_arena.h: blocks of objects in groups, and the names by
--   which the objects are found. Its calls come one after the other.
-- * ObjectPool is `ObjectPool` and `ArenaObjectPool` of include/p/base/object_pool.h: the groups
--   of free objects of each thread and the two stacks of groups. Its calls come one after the
--   other. ObjectPool/Stack has `LockFreeStack`, on which ObjectPool builds as a list, with
--   calls one after the other, and ObjectPool/LockFree its atomic steps, of any threads in any
--   order. The names of the blocks are those of ObjectArena (ObjectPool/Blocks), which is taken
--   to have room for another.
-- * Buffer is include/p/base/buffer.h, the buffer that grows.
-- * Rand is src/rand.cpp; the seeds are parameters.
-- * FixedBuffer is include/p/base/fixed_buffer.h: the appends to a buffer of fixed size. The
--   text that `vsnprintf` makes is an argument.
-- * Log is include/p/base/log.h, include/p/base/logger.h, include/p/base/logging.h, src/log.cpp
--   and src/logger.cpp. Log/Sinker has `LogSinkThread`: the buffers that messages are copied
--   into, the references to what is written, and the rounds of the thread that hands the text
--   out; an operation that holds a lock is one step, and the two halves of a round are two, with
--   the calls of other threads between them; `work_round` is a round that none comes into.
--   `flush` is one step. Log/Levels has the settings of `Log`, the test of the level in front of
--   a statement, and `SourceFile`. Log/Stream has `LogStream` and `LogMessage`: the operators,
--   the head and the end of a line, and how far the buffer is written. Log/Handover passes the
--   line from there to the thread. Log/Date has `LogDateImpl`, the date and time kept as text;
--   `localtime_r` is a parameter.
-- * Endpoint is include/p/base/endpoint.h and src/endpoint.cpp: addresses parsed and printed.
--   The functions of the system that look addresses up and print them are parameters.
-- * Queue is include/p/base/queue.h. Slice is `compare` of include/p/base/slice.h. StringPrintf
--   is include/p/base/string_printf.h; the text that `vsnprintf` makes is a parameter.
-- * Convert has the texts of numbers of include/p/base/utils.h and src/utils.cpp.
--
-- Base has what these share: tests, lists measured by native numbers, machine words, and memory
-- read and written as bytes (Base/Bytes).
--
-- Numbers are natural numbers; an operation on `uint32_t` or `uint64_t` is taken modulo 2 ^ 32
-- or 2 ^ 64, with the cuts to a narrower type where the code makes them.
--
-- Fuel: a walk along the cache takes one round more than there are blocks, and no list of blocks
-- is longer. The digits of a number take 64 rounds, as many as a number of 64 bits has bits. The
-- size of a Buffer is doubled 64 times at most, after which 64 bits are used up. The raw numbers
-- that `fast_rand` may take are its fuel, and its theorem says which fuel is enough. `add_block`
-- goes to the last group or to one that it adds, which takes two rounds at most. The loop over
-- the heap of timers takes a round for each of them at most, and so does `append` for its
-- characters. A port has five digits at most.
--
-- Not modelled: the memory orders of the counters, since the operations of one thread are
-- modelled; `read_from_fd`; clocks, files and sockets; the copies of other libraries (arena.h,
-- lru_cache.h, autovector.h, linked_list.h, log_stream.h); the waits of the timer thread, which
-- end when they will; the sample programs; fast_logger.h, which nothing uses; the list behind a
-- lock of stack.h. The entries that the memory behind a new ring happens to hold are a
-- parameter, `raw`, of the operations.
pub mod Base
pub mod Time
pub mod Convert
pub mod Endpoint
pub mod Slice
pub mod Queue
pub mod StringPrintf
pub mod Timer
pub mod ObjectArena
pub mod ObjectPool
pub mod FixedBuffer
pub mod Buffer
pub mod Log
pub mod Rand
pub mod ZBuffer
