-- ===== src/Lib.antt =====
-- autumn: an object store on append-only extents.
--
-- An extent node keeps extents, files of checksummed blocks behind a header. The stream manager
-- places each extent on three nodes, strings extents together to streams, and keeps what it knows in
-- memory and in etcd. Clients append to the last extent of a stream; a partition layer builds a
-- key-value store on streams.
--
-- Extent/ models extent/extent.go:
--   Extent/Device: os.File and io.ReadFull on the list of a file's bytes. A write may fail after any
--     number of bytes.
--   Extent/Checksum: utils.AdlerCheckSum (utils/utils.go).
--   Extent/Block: align, writeBlock, readBlock; Extent/Block/RoundTrip and Extent/Block/Torn read
--     whole and cut blocks back.
--   Extent/Header: extentHeader with Marshal and Unmarshal.
--   Extent/File: Extent with CreateExtent, OpenExtent, Seal, AppendBlocks, ReadBlocks and
--     CommitLength (the field `commit_length`). Its child modules: Layout (the specification: an
--     extent holds a list of blocks), Append and Appended (AppendBlocks), Read (ReadBlocks),
--     Recovery and Replay (OpenExtent), Sealing (Seal).
-- Manager/ models the two managers:
--   Manager/EtcdOp: EtctSetKVS and EtcdAllocUniqID of manager/etcd_op.go; Manager/EtcdOp/Ids the
--     ranges of IDs that are handed out.
--   Manager/Policy: SimplePolicy of manager/streammanager/policy.go; Manager/Policy/Choice the nodes
--     that it takes.
--   Manager/StreamManager: the maps of manager/streammanager/sm.go and the handlers CreateStream,
--     RegisterNode and Truncate of manager/streammanager/sm_service.go;
--     Manager/StreamManager/AllocExtent the handler StreamAllocExtent. A handler is a function of
--     the state (`World`: memory and etcd) and of what the call meets outside the process (`Env`).
--     Manager/StreamManager/Takeover is runAsLeader, on what etcd answers. The other child modules
--     are proofs, named for their subject.
--   Manager/Handler: the monad in which the handlers are written.
-- Node models node/node.go and node/node_service.go: the extents of a node, its handlers, and Append
--   on the primary with the two calls of ReplicateBlocks. What the network does with each call, the
--   order of the results and the devices' faults are arguments (`Weather`). Node/Replication and
--   Node/Serving are about Append and ReadBlocks, Node/Restart about LoadExtents.
-- RangePartition/DiscardManager models rangepartition/discard.go; Index is about the reverse index
--   and the counters, Maximum about MaxDiscard.
-- RangePartition/Keys and RangePartition/Values model rangepartition/y (y.go, iterator.go) and
--   valuePointer: internal keys, with their order in Keys/Order, and encoded values.
-- RangePartition/Partition, Flusher, Reader and Writer model
--   rangepartition/range_rangepartition.go, with writeValueLog of rangepartition/valuelog.go:
--   Partition the state, ensureRoomForWrite and writeToLSM, Flusher flushMemtable, Reader
--   getValueStruct and Get, Writer writeRequests, Write and Delete. RangePartition/Storage is the
--   interface to the skip list, the tables and the log stream, with an implementation on lists in
--   Storage/Lists; RangePartition/Versions says what a read means. The child modules of Partition are
--   proofs: Reads and Sorting (getValueStruct), Validity (the invariant), Rotation, Room and Writes
--   (writeRequests), Flushing and Attempts (flushMemtable), Sent and Clients (one client's calls),
--   Batches, and Empty (the empty key).
-- RangePartition/Compaction models the loops of doCompact (rangepartition/compaction.go) and of Range
--   on what a merge iterator gives; Compaction/Kept says which entries and keys they keep.
-- Manager/PartitionManager models manager/partitionmanager (pm.go, pm_service.go): runAsLeader with
--   parseParts, RegisterPS, Bootstrap, SetRowStreamTables and the queries, in the same monad.
--   PartitionManager/Loading and PartitionManager/Calls are proofs about them. The keys that etcd
--   returns are given as already split, and their values as unmarshalled or not.
-- Log: pb.EntryInfo, the interface to the generated encodings of entries, and ExtractLogEntry of
--   rangepartition/y/y.go; Log/Extraction and Log/Chunks are about blocks that hold entries.
-- Extent/Entries models readBlockEntries and ReadEntries of extent/extent.go, Node/Entries the handler
--   ReadEntries; Extent/Entries/Reading and Answers say what a replay reads.
-- StreamClient/ models streamclient/: Blocks is mix_block.go, with its proofs in Filling, Own and Packing;
--   Iterator is the log iterator of streamclient.go with replayLog of rangepartition/valuelog.go, its
--   proofs in Steps, Full, Extents, Moves and Replay; Appending is Append and AppendEntries, its proofs in Retries
--   and Addresses; ExtentManager is what a client remembers of extents.
-- RangePartition/Requests models isReqsTooBig of rangepartition/range_rangepartition.go.
-- RangePartition/Recovery models OpenRangePartition up to its write loop, and
--   RangePartition/GarbageCollection runGC of rangepartition/valuelog.go, with Emptied about the
--   values that it writes.
-- Utils/SafeMutex models utils/lock.go, for one thread: a call that waits for another holder hangs.
-- Prelude/ holds the shared helpers, with the fixed width integers and the varints of
--   encoding/binary. Examples/ runs the theorems at concrete inputs.
--
-- Numbers. uint32 and uint64 arithmetic is on natural numbers with `% 2 ^ 32` and `% 2 ^ 64` where
-- the code can wrap around; theorems that need it say that the sums stay below. Bytes are natural
-- numbers. `make` is taken to panic from a length of 2^48 on.
--
-- Loops. All are recursions on lists, except those that take fuel: the replay of OpenExtent (`scan`)
-- takes the file's length, enough since each block takes 512 bytes; ReadBlocks
-- takes its own bound on the blocks; a varint takes the ten groups that a uint64 can have. The poll
-- for room in writeRequests, where the flusher makes one attempt between two polls, takes fuel, of
-- which two are enough if tables can be built; the outer loop of doCompact takes as much as there
-- are entries. ReadEntries takes fuel as the replay of OpenExtent does, enough for files below
-- 2^32 bytes; the loop of replayLog as much as there are entries, and one more.
--
-- Locks. A call holds the lock of what it changes, so a call is one step here; interleavings are
-- modelled where the code leaves them open (the ID key of etcd, by the value that a call read
-- before a rival changed it; the leadership, which may end during a call). In a partition the flusher
-- moves by its own steps; clients write one after the other.
--
-- Not modelled: gRPC, protobuf and etcd themselves (what a call of them returns is an argument, and
-- the encodings of entries are an interface), the election and the queries of the stream manager, the
-- lookups of connections in the stream client, the tables and the skip list of the partition layer
-- (adapted from Badger: an interface here), the compaction at the opening of a partition, its
-- closing, its write loop (doWrites), the failures of Truncate and Sync in OpenExtent and of the
-- deferred Truncate in AppendBlocks, the text of the partition manager's keys and the bytes of their
-- values (an argument of parseParts is what they decode to), the connection pool, the commands, logging and configuration.
pub mod Prelude
pub mod Extent
pub mod Log
pub mod Manager
pub mod Node
pub mod RangePartition
pub mod StreamClient
pub mod Utils
pub mod Examples
