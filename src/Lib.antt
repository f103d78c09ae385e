-- ===== src/Lib.antt =====
-- OpenDB: the SQL parser, commands and the engine loop that runs them, locks, transactions,
-- deadlock detection, the versioned in-memory engine, values and rows, predicates, the sharded and
-- the caching engine, and the allocator of database pages.
--
-- The parser turns a text into statements, and a statement on rows into a command. The engine loop
-- takes a command of a transaction, asks LockManager for the table or the row, asks
-- DeadlockDetector about a transaction that would have to wait, reads and writes rows through a
-- storage engine, and ends the transaction in TransactionManager, whose commit sequence it passes
-- on to the storage engine. The engine on disk keeps its pages through a pager, which asks
-- BuddyPageAllocator for runs of pages. A method of
-- TransactionManager, LockManager, InMemoryStorageEngine and BuddyPageAllocator holds the one mutex
-- of its part, so one method, or the part of a method between two waits, is one step; interleavings
-- are lists of such steps. Some methods are more than one step in the source and are modelled as if
-- no other thread came between: detectCycle, since DeadlockDetector has no mutex and asks LockManager
-- anew for each queue and each set of holders; a read of the cache, which asks the engine behind it
-- without the mutex; allocatePages where the file grows, whose callers take turns by the locks on
-- tables. InMemoryStorageEngine::commit(txn) counts its number up before it takes the mutex:
-- histories have these two steps apart as well.
--
-- Parts and files, with paths from the root of the repository:
--   Value.antt, Value/      includes/opendb/types/Value.hpp: the tags, toBytes and fromBytes
--                           (Value/Bytes), compare (Value/Order; Prelude/Order has the order of bytes),
--                           operator== (Value/Equality), toString (Value/Render)
--   Tuple.antt, Tuple/      includes/opendb/types/Tuple.hpp and Column.hpp: maybeGet, has, set;
--                           operator== and toString (Tuple/Text)
--   Txn.antt, Txn/          includes/opendb/core/TransactionManager.hpp: beginTxn, commitTxn,
--                           abortTxn, getState, visibleSeq; histories of calls (Txn/History)
--   Lock.antt, Lock/        includes/opendb/core/LockManager.hpp: acquireKey, tryAcquireKey, release,
--                           releaseKey, isGranted, isGrantedKey; getHolders, getWaiters,
--                           waiterResource, waiterTable (Lock/Queries)
--   Deadlock.antt, Deadlock/
--                           includes/opendb/core/DeadlockDetector.hpp: detectCycle
--   Memory.antt, Memory/    includes/opendb/storage/InMemoryStorageEngine.hpp: get, put, remove,
--                           scan, commit, abort, tableCount, rowCount
--   Predicate.antt, Predicate/
--                           includes/opendb/types/Predicate.hpp: the tree of a WHERE clause, evaluate;
--                           its text (Predicate/Text)
--   Schema.antt             includes/opendb/types/Schema.hpp: columns, tables, partitions, ALTER TABLE,
--                           and the lookups find, hasColumn, primaryKeyColumn, hasPrimaryKey
--   Command.antt, Command/  includes/opendb/types/Command.hpp: a command, the checks of its constructor,
--                           its setters; its text (Command/Text)
--   Sql.antt, Sql/          includes/opendb/frontend/SqlParser.hpp and src/SqlParser.cpp. Sql/Parser has
--                           the state of the parser and the shape of its functions; Sql/Scan the
--                           blanks, comments, keywords, symbols and identifiers; Sql/Literals the
--                           literals; Sql/Where the conditions; Sql/Ddl CREATE, DROP and ALTER TABLE;
--                           Sql/Dml INSERT, UPDATE, DELETE and Sql/Dml/Select SELECT; Sql/Statement
--                           parse and parseAll. Proofs: Sql/Progress on termination, Sql/Sound on the
--                           statements that are given, Sql/Tokens and Sql/Numbers on the literals
--   Engine.antt, Engine/    includes/opendb/core/EngineLoop.hpp and types/Result.hpp: run and dispatch
--                           (Engine/Dispatch), the handlers of INSERT, UPDATE, DELETE (Engine/Handlers)
--                           and SELECT (Engine/Select) with its ORDER BY (Engine/Order), and the printed
--                           table of a result (Engine/Table); any
--                           engine that fills Storage takes the calls
--   Json.antt, Json/        includes/opendb/frontend/JsonEncoder.hpp: JsonEncoder with base64Encode
--                           (Json/Base64); JsonParser and parseJsonRequest (Json/Strings, Json/Request)
--   Storage.antt, Storage/  includes/opendb/contracts/IStorageEngine.hpp and types/DbError.hpp: the
--                           operations of every storage engine as a record, and the law that clients
--                           rely on (Storage/Laws); Memory/Contract fills both
--   Sharded.antt, Sharded/  includes/opendb/storage/ShardedStorageEngine.hpp and PartitionPolicy of
--                           includes/opendb/types/Schema.hpp: a client of that interface
--   Caching.antt, Caching/  includes/opendb/storage/CachingStorageEngine.hpp: another client of it
--   Buddy.antt, Buddy/      src/BuddyPageAllocator.cpp and includes/opendb/storage/
--                           BuddyPageAllocator.hpp: allocatePages, freePages, onFileExtended,
--                           freePageCount, freeRunCount; saveFreeRuns, loadFreeRuns, the header
--                           (Buddy/Snapshot); the callback Pager::extendFile of src/Pager.cpp, as far
--                           as the page count and the allocator go (Buddy/Ownership)
--   Prelude.antt, Prelude/  what the parts share: tests and options, unordered maps (Dict), std::map
--                           with a comparison function (OrderedMap, SortedMap), integers and words
--
-- How the state is modelled. A map is a list of entries. The laws of std::unordered_map do not fix
-- an order of iteration; the models iterate in the order of insertion, and detectCycle and
-- getHolders are the only operations whose result depends on it. A transaction identifier is its
-- number. Counters of 64 bits and page numbers, which have 32 bits, wrap; lengths of containers are
-- unbounded, and so are the intermediate results of the calendar arithmetic, in which the source
-- would overflow for days near the ends of 32 bits. A string is its list of bytes. A double is its
-- 64-bit pattern, and the conversion of integers and the comparison of doubles are the parameter
-- Doubles, with the laws of IEEE 754 as the hypothesis IsIeee; the text of a double is a parameter
-- too.
--
-- The parser keeps the rest of its input in place of the input and pos_. A function of it answers
-- with a value, an empty optional or an exception; a character is one byte, and isspace, isalpha
-- and isdigit are those of the C locale. strtod is a parameter, strtoll and atoi are written out. A
-- pointer to a node is the node, a null one is null_node; in Predicate.antt, where evaluate would
-- crash on it, no child is null. std::to_string of a double is a parameter of the JSON encoder.
-- std::sort is insertion sort: the standard fixes no order of equal rows. A dispatch that must wait
-- for a lock ends the run of its loop.
--
-- The engines under a sharded engine are of one kind, and their state is a list.
--
-- Loops and bounds. detectCycle has the 1024 rounds of the source. The loop of classFor runs at
-- most n rounds, which are enough. The loops of allocatePages and freePages over the 9 classes
-- recurse on the number of classes that are left. The loops of the parser have one round more than
-- there are characters left: a round that goes on has read one (Sql/Progress). Too few rounds give
-- out_of_fuel, also in the loop over blanks and comments. The loops of the JSON parser have so many
-- rounds too, with two for each character where values are skipped, and give `exhausted` without
-- (Json/Request/Progress). Its skipValue calls itself for a nested value without a bound on the
-- depth: the room on the stack, in nested calls, is a parameter, and a call more gives `overflow`
-- (Json/Request/Overflow). All other loops are structural.
--
-- Not modelled: the notification and the clock of LockManager (a wake-up and a deadline are steps
-- that may come at any time); asserts; allocation failure; the free-form extensions of a column;
-- the counter of statements of the parser; the dispatcher with its threads, the on-disk engine, the
-- rest of the pager, the providers and the HTTP server.
pub mod Prelude
pub mod Value
pub mod Tuple
pub mod Predicate
pub mod Schema
pub mod Command
pub mod Sql
pub mod Storage
pub mod Memory
pub mod Buddy
pub mod Txn
pub mod Lock
pub mod Deadlock
pub mod Sharded
pub mod Caching
pub mod Json
pub mod Engine
