-- ===== src/Lib.antt =====
-- A limit order book and its trading loop: a price-time-priority matching engine, the occupancy index
-- and the arena under it, the ring that carries messages between its threads, and the risk gateway in
-- front of it, with the publishers of the top of the book and of its signals, the ITCH parser, the
-- journal of the wire and the hash map of references; and, of the benchmarks, the generator of a feed,
-- the gateways from the parser to the book, the trading loop, the workload of the latency run and the
-- checks that the benchmarks make of the engine and its publishers.
--
-- The parts, and where they are modelled:
--
--   include/lob/common.hpp, order.hpp     Order
--   include/lob/memory_pool.hpp           Pool: the arena; Pool/Free, Fresh: its free list
--   include/lob/level_bitmap.hpp          Bitmap; Bitmap/Occupied: the invariant of its three levels;
--                                         Bitmap/Word, Scan, Nearest, Above, Below: the two scans
--   include/lob/order_book.hpp            Book: State (fields and accesses), Links (an order on and off
--                                         its level), Sweep (fills against a level), Engine (the
--                                         public operations); Book/Queue, Valid: the queues that the
--                                         links stand for and the invariant of the book; Book/Top: the
--                                         indices and the cached bests; Book/Rest: orders that rest;
--                                         Book/Ids: the parts of an id; Book/Unlink: orders that leave
--                                         or shrink; Book/Fills: the fills of a sweep; Book/Requeued:
--                                         the indices after them; Book/Matching: all levels, bounds of the
--                                         lots, and the books that the calls reach; Book/Fresh: the new book
--   include/lob/spsc_ring.hpp             SpscRing; SpscRing/Queue: the bounded queue that it is;
--                                         SpscRing/Threads: its two threads, interleaved
--   include/lob/arena_ring.hpp            ArenaRing; ArenaRing/Slots: the queue of its slots
--   include/lob/bbo.hpp                   Bbo; Bbo/Feed: a session with its subscriber; Bbo/Current:
--                                         the top of the queues
--   include/lob/signals.hpp               Signals; Signals/Flow: the order flow imbalance
--   include/lob/itch.hpp                  Itch; Itch/Loads: byte order; Itch/Frames: the loop over a stream
--   include/lob/risk.hpp                  Risk; Risk/Verdict, Exposure, Rate
--   include/lob/flat_hash.hpp             FlatHash; FlatHash/Probe: the invariant of the map and what it
--                                         holds; FlatHash/Find, Write, Insert, and for
--                                         erase FlatHash/Cycle, Shift, Step, Cleared, Erase
--   include/lob/journal.hpp               Journal; Journal/Append: a session of frames; Journal/Replay
--   bench/pipeline_common.hpp             Feed (the generator), Feed/Bytes, Parsed, Stream: what the
--                                         parser reads back; Pipeline (the sinks and the gateway),
--                                         Pipeline/Paths: the two paths to the book, Pipeline/Drains
--   bench/bench_flat_hash.cpp             Sparse; Sparse/Keys; Sparse/Alike, Agree: the dense and the hashed
--                                         gateway
--   bench/bench_advanced_orders.cpp       Advanced: the two checks
--   bench/bench_journal.cpp               Session; Session/Rebuilt: the replay of a session
--   bench/bench_trading_loop.cpp          Loop (the quote desk and the strategy); Loop/Engine; Loop/Quotes
--   bench/bench_rdtsc.cpp                 Workload; Workload/Sound
--   bench/bench_risk.cpp                  RiskBench: the stream of orders and two checks
--   bench/bench_signals.cpp               SignalBench: the scripted scenario
--   bench/bench_zero_copy.cpp             ZeroCopy: the pacing and the two pipelines
--   tests/test_correctness.cpp            Tests: runs of the models, and the theorems at examples
--
-- Prelude holds the names that the modules share, integers over the native numbers, 64-bit words
-- with their wrap-around, and the bits of a word.
--
-- The engine keeps its orders in the arena and links them by slots into a queue for each price level; a
-- level's number is its price less the base of the ladder. The index of each side says which levels
-- hold orders, so that the next best price is found after a level empties. A publisher
-- compares the top of the book with its last update and pushes a new one on an SPSC ring. The rings and
-- the risk gateway work on their own state. A wire struct of the parser reaches the book by one of two
-- paths: as a message through an SPSC ring, or from the sink straight to the gateway, which translates
-- the exchange's reference into the id of the book, by a dense table or by the hash map.
--
-- How the models correspond to the code. An object becomes a record of its fields and a method a
-- function that returns the new record beside its result. A pointer into the arena is a slot, a null
-- pointer is `none`, and an array is a function of the index. Unsigned words are numbers with the
-- wrap-around written out; prices and quantities are integers without a bound, since an overflow of
-- a signed integer is undefined: the models say nothing of a call that overflows one, such as a sum
-- of lots in the book or an exposure that the risk gateway adds up before it checks the size. The
-- product of the hash map's capacity and its load percentage is taken not to wrap either, which it
-- does from capacities of about 2 ^ 58 on. The ITCH parser reads memory by address. An operation of
-- the book returns `none` where the code would access a dead slot, or where a loop runs out of its
-- fuel. The fuel of a sweep is the capacity of the arena and two, since no queue has more orders
-- than the arena has slots, and that of the matching loop the taker's quantity and one, since each
-- sweep takes a lot at least. The trade handler's calls are recorded as a list of trades. A probe of
-- the hash map visits every slot once and one more, which is its fuel; the loop over a stream of `n`
-- events has fuel `n + 1`. A clock reading, a random number and the result of a system call are
-- arguments, and the attempts of a loop that waits are single steps. The journal is that of a POSIX
-- system. The accesses of the two threads of a ring are interleaved one by one, as the acquire and
-- release pairs of the source allow.
--
-- Not modelled: time stamps, thread pinning, the set-up of the benchmarks and their measuring and
-- reporting, which hold no logic of the book; the write and the mapping of the feed's file; and
-- allocation, which happens once, before the first order.
pub mod Prelude
pub mod Sparse
pub mod SpscRing
pub mod Pool
pub mod Bitmap
pub mod Journal
pub mod Loop
pub mod Workload
pub mod Session
pub mod ZeroCopy
pub mod Order
pub mod Book
pub mod Bbo
pub mod Signals
pub mod SignalBench
pub mod Itch
pub mod Feed
pub mod FlatHash
pub mod Pipeline
pub mod ArenaRing
mod Tests
pub mod Risk
pub mod RiskBench
pub mod Advanced
