-- ===== src/Lib.antt =====
-- OriginDB: the storage core of the database, the paths by which its changes reach a client, and the
-- engine of the WebAssembly modules that write to it.
--
-- A client's write is staged in a transaction (src/storage/transaction_impl.cpp, `Transaction`).
-- Commit (src/storage/storage_engine.cpp, `Engine`) applies the staged writes to the tables in
-- memory (src/storage/mem_table.cpp, `MemTable`), writes their rows in the binary row format
-- (src/storage/row_codec.cpp, `Codec` and `RowCodec`; the types of include/storage/table.h are in
-- `Table`) to the write-ahead log (src/storage/wal_impl.cpp, `Wal`), waits until they are durable,
-- and publishes an event for each (src/changefeed/changefeed_engine.cpp, `Changefeed`), which is
-- framed for the clients by src/websocket/binary_protocol.cpp (`BinaryProtocol`). A restart reads
-- the last snapshot of the tables (`Engine.Snapshot`), and replays the log on it (`Engine.Replay`). SQL
-- statements (src/sql/sql_engine.cpp, `SqlEngine`) run on the storage engine. A client can also subscribe by a SQL query
-- (src/changefeed/sql_subscription.cpp, `SqlSubscription`), whose WHERE clause is a predicate on rows
-- (src/changefeed/predicate_evaluator.cpp, `Predicate`). Writes that do not come from a client come
-- from a reducer of a module: src/wasm/wasm_engine.cpp runs it and src/wasm/host_functions.cpp stages
-- what it writes (`Wasm`), which the engine commits if the reducer ends well.
--
-- `Prelude`: what the modules share: tests on numbers, lists, texts, maps and decimal numbers.
-- `Codec`: PutU8 to PutString and the Reader; `Codec.Laws` and `Codec.Local` are their laws.
-- `RowCodec`: EncodeValue, DecodeValue, EncodeRow, DecodeRow, EncodeSchema, DecodeSchema.
-- `Wal.Record`: SerializeRecord, DeserializeRecord. `Wal.File`: ReadAll. `Wal.Writer`: the queue
--   and WriterLoop, one definition for each stretch under one lock. `Wal.Log`: what the engine uses
--   of a log. `Wal.Service`: Initialize, Append, AppendBatchAsync with its wait, Truncate and
--   ReadAll as an implementation of that interface.
-- `MemTable`: the methods of MemTable::Impl; `Maps`, `Cache` and `Scan` are its theorems.
-- `Engine`: the loop of Commit; `Engine.Methods`: the methods of StorageEngine::Impl;
--   `Engine.Replay`: RecoverFromWAL; `Engine.Rows`, `Engine.Commit` and `Engine.Recovery`: the
--   theorems; `Engine.Single`: a transaction of one write; `Engine.Flaws`: where a commit is not atomic
--   or not durable. `Engine.Documents`: SerializeSchema, DeserializeSchema, SerializeRow and
--   DeserializeRow; `Engine.Snapshot`: WriteSnapshot, LoadSnapshotIfPresent and Initialize; `Rows`,
--   `Schemas`, `Restore`, `Restart` and `Checkpoint`: their theorems.
-- `Document`: what the repository uses of nlohmann::json, and what it relies on there; `Sample` is a
--   small library of which all of it is proved.
-- `SqlEngine`: SqlEngine::Impl; `Statements`: SqlParser::Parse; `Results`: the answers; `Inserts` and
--   `Isolation`: the theorems.
-- `Changefeed`: PublishEvent to DeliverEvent; `Offsets`, `Retained` and `Delivery`: its theorems;
--   `Changefeed.Wakeup`: the waiting of DeliveryLoop and its wakers, step by step.
-- `BinaryProtocol`: BinarySerializer, BinaryDeserializer and ProtocolConverter.
-- `Predicate.Tokens`: Tokenize; `Predicate.Tree`: PredicateNode, LikePatternToRegex, EvaluateNode;
--   `Predicate.Parser`: the methods of Parser; `Lexing`, `Clauses` and `Total`: their theorems.
-- `SqlSubscription`: the methods of SqlSubscriptionManager that change it; `Query`: the methods of
--   SqlSubscriptionParser; `Matching`: MatchesEvent, FilterEvent, ProcessEvent, GetStats; `Index`,
--   `Upkeep`, `Removal`, `Steps` and `Routing`: the theorems.
-- `Wasm.Guest`: the memory of a guest; `Wasm.Host`, `Wasm.Scan`, `Wasm.Calls`: HostTableRead to
--   HostSender; `Wasm.Rows`: RowToJson, JsonToRow, SchemaFromJson; `Wasm.Commit`: CommitHostCall
--   on the storage engine, which is a parameter of `Wasm.Engine`; `Wasm.Base64`: Base64Encode,
--   Base64Decode; `Wasm.Engine`: Compile, Execute; `Wasm.Versions`: CompareVersions;
--   `Wasm.Deployment`: LoadModule, UnloadModule. Their child modules are the theorems.
-- `TickScheduler`: src/wasm/tick_scheduler.cpp, which runs reducers at fixed periods, its dispatcher and
--   its workers step by step; `Exclusive` and `Frames` are its theorems.
-- `Auth`: Check and StripBearer of src/common/auth.cpp, which the servers call on each request.
-- `ModuleStore`: the check of names of src/wasm/module_store.cpp, which guards its paths.
--
-- A byte is a number and a string a list of them. Integers of 32 and 64 bits keep their wrap-around
-- by `%`; a signed or floating number is its bits. An exception is a value of `Result` or `Option`,
-- or an outcome of its own. A method that holds a lock is one step. A commit is one step too: its
-- wait for the log, for which the source has left the lock of the tables, is the last part of it,
-- so that a commit which another one overtakes there is not followed. LoadModule looks up and swaps
-- under two locks: what other threads do to the engine in between is a parameter. A callback of a
-- subscriber runs under no lock and may call the engine, whose state it returns; the callbacks of
-- one event run one after the other. `dump` throws on a text that is not UTF-8: in the engine that
-- is followed, and what a module has staged was parsed before; the keys and committed rows that a
-- module reads or scans are taken to be UTF-8. Code that is not of the repository is a parameter:
-- the JSON library, std::regex, std::stod and std::stoll, wasmtime and the allocator of a guest,
-- the clock, the outcomes of the disk, and a subscriber's callback. A std::unordered_map is a list
-- of its pairs, in an order that no result depends on but as far as it is stated.
-- The fuel: each round of `read_records` takes four bytes at least, and `read_file` gives one round
-- more than the file has bytes. `tokenize` has one round more than the text has characters, each of
-- which takes one at least; the parser has four calls for each token and four more; `compare_versions`
-- has as many rounds as the two versions have characters, and each round takes one at least; `catch_up`
-- has one round more than the time, each of which takes a period.
--
-- Not modelled: the checkpoint loop, which times WriteSnapshot, the statistics methods of the storage
-- engine, the thread pool of the delivery, the shutdown of the threads, the registration
-- of the host functions and the instantiation of a module, which are calls of wasmtime, the
-- filters of src/wasm/wasm_subscription.cpp, the servers, the configuration and the tools.
pub mod Prelude
pub mod Codec
pub mod Table
pub mod RowCodec
pub mod Wal
pub mod MemTable
pub mod Transaction
pub mod Changefeed
pub mod Engine
pub mod BinaryProtocol
pub mod Auth
pub mod ModuleStore
pub mod Predicate
pub mod SqlSubscription
pub mod Wasm
pub mod TickScheduler
pub mod SqlEngine
pub mod Document
