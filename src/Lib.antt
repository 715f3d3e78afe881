-- ===== src/Lib.antt =====
-- SamehadaDB: a relational database in Go. A table is a chain of slotted pages; transactions lock
-- records, and write a log record before a page changes.
--
-- Ids is storage/page/rid.go and types/page_id.go, Txn is storage/access/transaction.go with the
-- tuple of storage/tuple/tuple.go. Lock is storage/access/lock_manager.go (LockShared,
-- LockExclusive, LockUpgrade, Unlock) with releaseLocks of storage/access/transaction_manager.go;
-- Lock/System puts the calls of all transactions into one step relation. Bytes is encoding/binary
-- as the code uses it: 32-bit little endian words in byte slices, copy, and the panics of a slice
-- that leaves its data. Log is recovery/log_record.go and recovery/log_manager.go (Flush,
-- AppendLogRecord) with WriteLog of storage/disk/disk_manager_impl.go. Page is
-- storage/page/page.go and the accessors of storage/access/table_page.go, TablePage is the
-- operations of the latter (InsertTuple, UpdateTuple in TablePage/Update, MarkDelete, ApplyDelete,
-- RollbackDelete, Init, GetTuple, GetTupleFirstRID, GetNextTupleRID), which call Lock and Log.
-- Value is types/column_value.go and types/column_type_id.go, Schema is
-- storage/table/column/column.go and storage/table/schema/schema.go, Row is the rest of
-- storage/tuple/tuple.go: a tuple built from values by a schema and read back. Recovery is
-- DeserializeLogRecord of recovery/log_recovery/log_recovery.go, Recovery/Redo and Recovery/Undo
-- are its two passes, with ReadLog of storage/disk/disk_manager_impl.go. Disk is the page file of
-- storage/disk/disk_manager_impl.go (WritePage, ReadPage, AllocatePage), Ring is
-- storage/buffer/circular_list.go, Clock is storage/buffer/clock_replacer.go on it, and Buffer is
-- storage/buffer/buffer_pool_manager.go, which calls Disk, Clock and Log. TableHeap is
-- storage/access/table_heap.go (NewTableHeap, InsertTuple, MarkDelete, ApplyDelete,
-- RollbackDelete, GetTuple, GetFirstTuple; UpdateTuple in TableHeap/Update) on Buffer and
-- TablePage, TableHeap/Iterator is storage/access/table_heap_iterator.go on it, and TxnManager is
-- Begin, Commit and, in TxnManager/Rollback, Abort of storage/access/transaction_manager.go.
-- HashBlock is storage/page/hash_table_block_page.go and storage/page/hash_table_header_page.go,
-- HashTable is container/hash/linear_probe_hash_table.go with its iterator on an interface of the
-- pool pages, and HashTable/Packed is the packed record identifiers of
-- storage/index/linear_probe_hash_table_index.go. Expression is execution/expression, Executor is
-- execution/executors/executor.go with the loop of execution/executors/execution_engine.go, Limit
-- is execution/executors/limit_executor.go, Orderby is execution/executors/orderby_executor.go,
-- and Aggregation is execution/executors/aggregation_executor.go with
-- execution/plans/aggregation.go; a child executor is a type of states with a function Next. Tests
-- has concrete runs. Base has the names that all share.
--
-- State is passed on explicitly: an operation takes the page and `Env` (the logging switch, the
-- lock tables, the log manager, the transaction) and returns them. `Outcome` has a value or the
-- panic of the Go runtime. A signed 32-bit number is its unsigned word, so -1 is 4294967295, and
-- uint32 arithmetic wraps. A page has 4096 bytes and a log buffer 45056. Loops over the slots of a
-- page recurse on the tuple count, which is the bound of the source's loop. The nodes of a
-- circular list are a function of their addresses, a pointer to one is an optional address, and
-- the walk round the list is given as many steps as the list has nodes; the loop of Victim is
-- given two rounds. A loop over the pages of a table is given its rounds, and answers where it
-- stands when they are used up. A float is its bits, and the comparison and the sum of floats are
-- a parameter, FloatOps.
--
-- Columns of a schema are values, while the code shares pointers to them. A call is one step,
-- since the code holds the page's latch or the manager's mutex during it. The murmur3 hash of a
-- third party is a parameter of the aggregation and the hash table, sort.Slice is a parameter of
-- the order-by executor, and the order in which Go gives the keys of a map is an argument. The
-- loops of recovery are given their rounds, and answer where they stand when these are used up.
-- I/O errors of the log file, debugging output, the making of a hash table, the catalog and the
-- executors other than those named are not modelled.
pub mod Base
pub mod Ids
pub mod Txn
pub mod Bytes
pub mod Log
pub mod Page
pub mod TablePage
pub mod Tests
pub mod Lock
pub mod Value
pub mod Schema
pub mod Row
pub mod Recovery
pub mod Disk
pub mod Ring
pub mod Clock
pub mod Buffer
pub mod TableHeap
pub mod TxnManager
pub mod HashBlock
pub mod Expression
pub mod Executor
pub mod Limit
pub mod Aggregation
pub mod HashTable
pub mod Orderby
