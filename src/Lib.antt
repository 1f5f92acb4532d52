-- ===== src/Lib.antt =====
-- A verification library for the core of mimisbrunnr, a tagged object store: the write-ahead log, the
-- bucket allocator below it, the clock that stamps its entries, the first blocks of the metadata and the
-- index crates, the graph of implications between tags, and the query language with its executor.
--
-- How the parts interact: the engine stamps each event with the node's hybrid clock (Engine, Types) and
-- appends it to the ring of the write-ahead log (Wal), which lives in two header blocks and a ring of
-- sectors on a block device (Storage.Device). Data goes into buckets that the allocator hands out by
-- reference (Storage.Alloc, Storage.Allocator, Storage.Block), and the freespace set sorts the buckets by
-- fragmentation (Storage.Freespace). Objects are found by a radix path (Meta.Radix), and attribute values
-- by a hash index of directory and bucket blocks (Index.KvDirectory, Index.KvBucket) or, in the order of
-- their normalised keys, by the range index (Index.RangeIndex). A query (Types.Query) is read from its text
-- and printed back (Query.Token, Query.Parse, Query.Print), and the executor (Query.Executor) answers it by
-- the algebra of the bitmaps that the indexes return; which tags are below a tag is the graph's to say
-- (Ontology).
--
-- Base has what the modules share: tests into Bool and the lemmas on them (Tests), lists over the native
-- numbers (Lists), results (Results), little-endian words (Bytes), integers of 64 bits (Int), and BTreeMap
-- as an association list in key order with its laws (OrdMap). A field or constant keeps its name.
--
-- Types.Timestamp (crates/types/src/timestamp.rs): HybridTimestamp, tick, recv and the order cmp. Counters
-- saturate at 65535. Engine.Clock (crates/engine/src/clock.rs): the clock of a node. The wall clock is
-- outside the program, so each call takes a Reading; the lock makes each call one step.
--
-- Storage.Block (crates/storage/src/block.rs, root_pointer.rs, addressing.rs): the block header, the kinds
-- of blocks, BlockRef, and the split of a block number. Storage.Alloc (crates/storage/src/alloc.rs): the
-- records of the allocation table and the table as an ordered map. Storage.Allocator
-- (crates/storage/src/allocator.rs): alloc, free, validate and seed_freelist. A loop over buckets is a
-- recursion on the number of buckets that are left, and a method returns the new allocator beside its
-- result. Storage.Device.Image (crates/storage/src/file_device.rs): a device is a function from addresses
-- to bytes, with a capacity and a read-only flag; reads and writes fail as the file device does, and
-- errors of the operating system are left out. There is no write cache: a write is durable at once and in order,
-- and sync changes nothing. So what a crash leaves is a prefix of the writes, the last one torn at will, and that
-- append_raw has no barrier between the write of the sector and that of the header makes no difference here. Storage.Freespace (crates/storage/src/freespace.rs): the
-- key order and the set.
--
-- Wal.Entry and Wal.Header (crates/wal/src/entry.rs, header.rs): the two packed structs with their byte
-- images. Wal.Dirty (crates/wal/src/dirty.rs): the journal pin. Wal.Ring (crates/wal/src/ring.rs): State
-- is struct Wal and its geometry, Monad the sequencing of calls that change the ring and the device and
-- may fail, Open has format, open, open_read_only and flush_header, Append append_raw, Checkpoint
-- checkpoint, and Iter WalIter. The loops of checkpoint and of next take fuel: a round takes one sector
-- off used_bytes or remaining, so that number of bytes plus one is enough. CRC32C is a function of an
-- outside crate and so a parameter; that its values are below 2 ^ 32 is a hypothesis where it is needed.
-- The children of Wal.Ring.Refine relate the ring to the queue of its entries: Holds is the invariant of a
-- ring that holds a list of entries, OnDisk says that the header in the active slot is the ring's and that
-- the copy in the other slot is older or broken, and Recovers is both. History has the events, crashes
-- included, as a step relation, and the histories of a ring.
--
-- Meta.Radix (crates/meta/src/radix.rs): the translation between ids and paths, for both leaf fanouts; the
-- array of three slots is a list, and u64 arithmetic is taken modulo 2 ^ 64. Index.KvBucket and
-- Index.KvDirectory (crates/index/src/kv_bucket.rs, kv_directory.rs): the blocks in memory; an array of
-- entries is a list whose length is part of well-formedness. Index.NormalisedKey
-- (crates/index/src/normalised_key.rs): the 16-byte key of a value (Types.Value), with a float given by its
-- bits.
--
-- Index.Bitmap is the interface to RoaringBitmap of the crate roaring, a parameter: the operations that the
-- indexes and the executor call, with the membership laws that they rely on, and lists as an instance of it.
-- Index.RangeIndex (crates/index/src/range_index.rs): Map has RangeIndex in memory with insert, remove,
-- lookup and range_scan, KeyOrder the order of its keys. BTreeMap::range panics where its bounds are the
-- wrong way round; the scan is then none. Laws reads an index as a relation of keys and objects, and Ints
-- fills one with integers.
--
-- Index.TagStore (crates/index/src/tag_store.rs): the three variants in memory; Scores has the lists beside
-- the members, Members the set that a store stands for. Query.Executor.IsA puts the executor over the graph of
-- implications.
--
-- Ontology.Graph is the interface to DiGraph of the crate petgraph, a parameter too, and Ontology.ListGraph
-- an instance of it. Ontology.Dag (crates/ontology/src/implication_dag.rs): ImplicationDag with its edits and
-- its searches. Search counts what a search has left: a round takes a node off the queue, and each node is in
-- it once at most, so the number of nodes plus one is enough fuel. Reach has the paths of the graph and the
-- invariant of a search, Loops and Laws what the loops and closure return, IsA compares is_a with closure, and
-- Implies is about new edges; that the topological sort fails just where there is a cycle is a hypothesis on
-- the graph it is called on.
--
-- Types.ObjectId, Types.Query and Types.Assertion (crates/types/src/object_id.rs, query.rs, assertion.rs): a
-- tag id is a number, and a vector of queries is a data type beside Query. Query.Error
-- (crates/query/src/error.rs) has the errors without their texts, and the result of a function on fuel.
-- Query.Text has the parts of the standard library that print and read numbers. Query.Token, Query.Parse and
-- Query.Print (crates/query/src/parser.rs): a text is its bytes, a place is a position with what follows it.
-- A round of the tokeniser takes a byte, so the input's length plus one is enough fuel; a recursive call of
-- the parser has taken a token or is one of at most as many loop rounds, so twice the number of tokens plus
-- one is enough. A float is its bits, and how floats are printed and read is a parameter. Query.Executor
-- (crates/query/src/executor.rs): the borrowed indexes are a record of what the executor calls on them, and
-- an evaluation has a value, an error or a panic. Sets and Matches say what the set operations find, Total
-- when there is a result, Ranges puts the executor over the range index, and Leaves, Integers and Meaning say what
-- a query means for one object without the executor's steps. Query.Facets
-- (crates/index/src/faceted.rs, crates/query/src/facets.rs) counts the tags in a result; a FacetGroup is a
-- FacetCount.
--
-- Not modelled: log lines, files and locks; the texts of error messages; the CBOR images of payloads and B+
-- tree nodes (outside encoders); the remaining modules of these crates, the pool, watch, SQL, FUSE
-- and command line parts. Numbers are naturals; where the code computes in a machine word and can leave it,
-- the wrap, the saturation or the check is written out.
pub mod Base
pub mod Types
pub mod Storage
pub mod Wal
pub mod Engine
pub mod Meta
pub mod Ontology
pub mod Index
pub mod Query
