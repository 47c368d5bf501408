-- ===== src/Lib.antt =====
-- lsmkv is a key-value store on a log-structured merge tree that keeps its values apart from its
-- keys. A write goes to the value log and then to a table in memory; a full table is handed over to
-- the background, which writes it out as a file of level 0 and merges files down the levels. A read
-- asks the table in memory, the one that is being written out, the files of the levels, and at the
-- end the value log. This library models the parts below; a path is one from the repository's root.
--
-- - Base: helpers. Base/Tests has the Boolean tests, Base/Lists lists measured by native numbers,
--   Base/Bits the bits of a number, Base/OrderedMap std::map with numbers for keys.
-- - Coding (utils/coding.h): integers as little-endian bytes, and stores into a buffer.
-- - Keys (include/lsmkv/dbformat.h): internal keys, query keys and their accessors.
-- - Comparator (utils/comparator.h, src/comparator.cpp): the orders, separators and successors.
-- - Status (utils/status.h): the codes of results.
-- - Block (src/include/block_format.h, src/include/builder.h): BlockBuilder, ParserBlock and
--   BlockIterator. A method of the iterator is a function from an iterator to the next one.
-- - Format (src/include/block_format.h): block handles, footer, value log entries, file metadata.
-- - Reader (src/include/reader.h, src/reader.cpp): FilterInIndex and FindInBlock; Reader/Files has
--   ReadOne and ReadBatch over what the system gives for a file.
-- - Skiplist (src/include/skiplist.h): a heap of nodes, the search and the insertion. Skiplist/Chain,
--   Search and Link read the pointers level by level, Splice says what an insertion writes; Iterator
--   is the iterator with a range end.
-- - MemTable (src/memtable.cpp, src/include/memtable.h): the table in memory over the skip list.
-- - LevelCache (src/levelcache.cpp, src/include/levelcache.h): the files of each level, the choice of
--   a compaction and its effect. LevelCache/Lookup is get, over the lookup in a file.
-- - Table (src/include/block_format.h): TableIterator over the blocks of a file.
-- - LoserTree (src/levelcache.cpp): the tournament of a merge.
-- - RwLock (utils/rwlock.h): the lock as a step relation, one shared access of a thread at a time.
--   RwLock/Count sums over the threads, Invariant says what the members count, Exclusion draws
--   the consequences.
-- - BloomFilter (utils/bloomfilter.h, src/include/builder.h): the filter of a table and its builder.
-- - File (src/include/file.h): the buffered writable file.
-- - Builder (src/include/builder.h, src/table_builder.cpp): the builder of a table, over a file that is
--   the record `WritableFile`. Builder/Written has what it relies on, Builder/Posix that File does it,
--   Layout, Indexed, Finished and Filtered what the file of a finished table holds.
-- - BuildTable (src/builder.cpp): the file that is built of a table in memory; BuildTable/Kept says
--   when it is kept and what is recorded of it.
-- - VLog (src/include/vlog_builder.h, src/include/reader.h): the value log and its reader.
-- - Arena (utils/arena.h): the memory that the table in memory gives out, as regions of addresses.
-- - RingBuffer (utils/ring_buffer.h): the ring of bytes.
-- - Lru (utils/lru.h): the cache of the last used pairs.
-- - Version (src/include/version.h): the counters.
-- - KvStore (src/kvstore.cc): WriteImpl, GetImpl, put, del, reset and ExpireAt. KvStore/Background:
--   one round of Prepare, and the calls of the background: BackgroundCall, BackgroundCompaction, CompactMemTable,
--   CompactSSTFile; KvStore/Schedule has them take turns with writers. KvStore/Log fills what the store
--   asks of files with the value log, its reader and the lookup in the levels, and KvStore/Logged reads
--   back what was written there.
--
-- A byte is a number below 256 and a slice is a list of bytes. A read out of range and a failed
-- assertion are `none`, or a constructor or a field of their own, with these exceptions: the accessors of
-- an internal key and the comparators are total, their assertions that a key has eight bytes and that two
-- numbers have equal sizes are conditions on the call. FindInBlock, which takes keys from a file, tests
-- them. A loop runs on fuel: the loops over a block
-- have as much as the block has bytes, of which every entry takes eight at least; the searches of a
-- skip list have as much as there are nodes and levels, since every round leaves one of them behind.
-- CompactSSTFile calls itself for the next level and has the fuel that it is given.
--
-- Parameters stand for what works on files: the store asks for the value log and the lookup in the
-- files of the levels through the record `Storage` of KvStore, which KvStore/Log fills down to the opening
-- and the reading of a file; what BuildTable and BuildWhenCompaction write is an argument of
-- the functions that call them. The arena's memory is an argument of `put`, with any contents, and the
-- random generator's number one of `insert`. The checksum and the filter's hash are functions from bytes
-- to numbers. What the system calls answer is a list that a file carries. Threads interleave in RwLock
-- and, with whole calls for steps, in KvStore/Schedule only: elsewhere a call runs to its end. The blocking
-- waits of RwLock are loops, so that a notification that is lost is not seen. The memory orders of the atomics have no counterpart.
--
-- Not modelled: the loop of BuildWhenCompaction, the scans of the store,
-- the hash, the learned index, hazard pointers, the queue, and the other files, so
-- neither is the io_uring file that BuildTable opens: BuildTable is stated of files of whatever behaviour.
pub mod Base
pub mod Coding
pub mod Keys
pub mod Comparator
pub mod Status
pub mod Block
pub mod Format
pub mod Reader
pub mod Skiplist
pub mod MemTable
pub mod Table
pub mod LoserTree
pub mod RwLock
pub mod BloomFilter
pub mod File
pub mod Builder
pub mod BuildTable
pub mod VLog
pub mod Arena
pub mod RingBuffer
pub mod Lru
pub mod LevelCache
pub mod Version
pub mod KvStore
