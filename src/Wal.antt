-- ===== src/Wal.antt =====
-- The write-ahead log: src/storage/wal_impl.cpp and include/storage/wal.h. `Record` is the bytes of
-- one entry, `File` the reading of wal.log, `Writer` the queue and the writer thread,
-- `Log` what the engine uses of a log, and `Service` the log as an implementation of it.
pub mod Record
pub mod Memory
pub mod File
pub mod Writer
pub mod Log
pub mod Service
mod Tests
