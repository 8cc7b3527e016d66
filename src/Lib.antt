-- ===== src/Lib.antt =====
-- A verification library of leveldb-rs, a key-value store (src/*.rs).
--
-- Parts and files. Paths are from the repository's root.
-- - Base: shared notation, lists over the native numbers, slices that panic out of range,
--   and bits.
-- - Coding: the crate integer_encoding (varints and little-endian integers) as the interface
--   IntegerEncoding; Coding/Leb128 is a value of it. Every module that encodes takes it as an
--   instance argument.
-- - Cmp: src/cmp.rs, the trait Cmp and DefaultCmp; Cmp/Order the byte order and what is asked of
--   a comparator, Cmp/Separator the two find functions.
-- - KeyTypes: src/key_types.rs; Tag, Formats and Comparison prove.
-- - InternalCmp: src/cmp.rs, InternalKeyCmp and MemtableKeyCmp over a user comparator.
-- - BlockHandle: src/blockhandle.rs.
-- - WriteBatch: src/write_batch.rs; Contents, Iteration and RoundTrip prove.
-- - VersionEdit: src/version_edit.rs, and FileMetaData of src/types.rs; Utf8 is the standard
--   library's check of strings, Termination, Entries and RoundTrip prove.
-- - SkipMap: src/skipmap.rs. Order and Links say what a map is: a list of nodes that every
--   level's links visit; Search, Lookup and Height are about the searches and the heights,
--   Predecessors, Write, Chains, Between and Linking about the parts of insert, and Insert puts
--   them together.
-- - MemTable: src/memtable.rs over SkipMap. Keys is about the order of its keys, Versions what a
--   reader is to see, Table what a table holds, Get, Lookup, Add, Shift and Scan the operations,
--   and Log a table against the list of its writes.
-- - Cache: src/cache.rs, with LRUList in Lru. Order and Removal are about the list's operations,
--   Keys about the keys of the list, Bound about the cache.
-- - Iterator: the trait LdbIterator of src/types.rs, with laws that its clients rely on; Rows is
--   an iterator over a list that has them.
-- - MergingIter: src/merging_iter.rs; Smallest is about the choice of an iterator, Forward and
--   Start about advance.
-- - Snapshot: src/snapshot.rs; Laws proves.
-- - FileName: parse_file_name of src/types.rs; Numbered proves.
-- - Filter: src/filter.rs; Pieces, Bloom and Matches prove.
-- - FilterBlock: src/filter_block.rs; Builder and Reader are about what a builder holds and a
--   reader finds, Matches puts them together.
-- - Version: src/version.rs, the files of the levels and the tests of their ranges, with the
--   search for the files of a compaction in Inputs, the look-up in Get and the iterator over a
--   level in Iter. Search, Ranges, Level and Disjoint are about the tests, Widening and Closure
--   about the files of a compaction, Deletion about the look-up, Scan about the iterator.
-- - Block: Builder is src/block_builder.rs, Iter is src/block.rs, and Iter/Entries proves.
-- - Log: src/log.rs; Checksum, Fragments and RoundTrip prove. The crate crc is the interface
--   Crc32.
--
-- How the model reads the code. A byte string is a list of numbers; a number keeps its
-- wrap-around or its overflow check written out. A panic is `none`: slices out of range, failed
-- assertions and arithmetic that overflows, with overflow checks on; the version edits' Result has a
-- constructor for it, beside the errors. A sum of lengths that were read from bytes overflows from
-- 2^64 on. A loop is structural
-- recursion or recursion on fuel: the log writer gets one round for each byte and one more, the
-- log reader and the batch iterator one round for each byte and one more, since every round but
-- one takes a byte at least.
--
-- The version edit's loop gets one round for each byte and one more as well. The loops of the
-- block's iterator (Block/Iter) do too, and those over restarts one for each restart and one
-- more; where they run out, the answer is `none`, as for a panic, and no theorem here says that
-- they never do.
--
-- The skip list's nodes stand at addresses, of which none is freed while the list lives, so a Box
-- and a raw pointer are both a number; the head is 0. Its searches get one round for each node
-- and each of the 12 levels, which is enough in every list that its operations make; a node's
-- height gets 12 rounds, as many as there are levels. The cache's list has addresses as well, but
-- a node is freed when its box ends, and a read of a freed node is a panic. The random generator
-- and the sizes of a node and a link are arguments. The memtable's prev gets one round for each
-- entry and one more; no theorem here is about it.
--
-- The builder of filter blocks gets one round for each filter up to the one of the offset, since
-- every round adds one. The search for a file gets one round for each file and one more, the
-- search for the files of a compaction one for each bound of a file and one more; both are
-- enough. The iterator over a level's files gets one for each file and two more. The
-- merging iterator's loop to the end of an iterator gets an argument's number of rounds; the
-- properties of advance hold for every such number.
--
-- Shared state is passed on: a snapshot list is the state that its snapshots share, a hash map or
-- set is the list of its entries in the order of its iteration, and a batch's memtable and a
-- block's comparator are parameters.
--
-- Not modelled: the failure of an allocation of isize::MAX bytes or less, failing sinks and
-- sources, the product with 0.69 in floating point that gives a Bloom filter its number of probes
-- (an argument), the drop and the debug print of a skip list, moves of a cache, tables, the
-- floating-point score of a compaction, the database iterator, version sets, compaction and the
-- database itself, the environments and the examples.
pub mod Base
pub mod Coding
pub mod Cmp
pub mod KeyTypes
pub mod InternalCmp
pub mod BlockHandle
pub mod WriteBatch
pub mod Log
pub mod Snapshot
pub mod VersionEdit
pub mod Filter
pub mod FilterBlock
pub mod Block
pub mod FileName
pub mod SkipMap
pub mod MemTable
pub mod Cache
pub mod Version
pub mod Iterator
pub mod MergingIter
