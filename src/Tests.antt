-- ===== src/Tests.antt =====
-- The theorems at concrete inputs.
mod Lock
mod TablePage
mod Value
mod Recovery
mod Disk
mod Clock
mod Buffer
mod TxnManager
mod HashBlock
mod Executors
mod HashTable
mod Orderby
