-- ===== src/Lib.antt =====
-- A verification library for boostcache, an in-memory object cache with a redis-like protocol.
--
-- The program. A server listens on TCP and on a unix socket. Each connection is a session with a
-- request parser of its own; a request is a command in the bulk form of redis or on one line. The
-- parser looks its command up in one table, and the callback that is found works on one of two
-- databases, a hash table and an AVL tree, or answers by itself. The reply goes back to the session,
-- which writes it and then reads again.
--
-- The parts, and the files that model them (paths from the root of the repository):
--   * Wire: bytes, `memchr`, C strings, 32-bit `int`s as bit patterns with their wrap-around written
--     out, and `toInt` of src/kernel/commandhandler.cpp.
--   * CommandHandler: src/kernel/commandhandler.{h,cpp}. State has the fields and `reset`; Split and
--     Inline have `split` and `parseInline`; Bulk has `parseNumberOfArguments` and `parseArguments`;
--     CommandHandler.antt has `feedAndParseCommand` (`parse_command` up to the call of
--     `executeCommand`, and `feed_and_parse_command` to its end). The proofs: Scan and Rounds (the
--     loop of `parseArguments`), Invariant (between two calls), Fragments (a request over two reads,
--     and Heard: over any),
--     Feed (one call), Encode and RoundTrip (a client's encoding), Words (a command on one line), Chunks
--     (a command in pieces), Faults and Faults/Reached (undefined behaviour).
--   * Reply: the constants and the builders of replies of src/kernel/commandhandler.cpp;
--     Reply/Client reads them as a client does.
--   * Commands: src/kernel/commands.{h,cpp}: the table, `find`, the callbacks and their calls.
--     Spec is what the commands promise, over a map from keys and one from hashes. The proofs: Table
--     (the table and `find`), Keys (the entries behind FOR), Calls and Safety (the calls, against
--     Spec), Framing and Reply/Frames (replies as a client takes them off the stream), Stored and
--     Keeps (the value at a key).
--   * Db: HashTable is src/db/hashtable.{h,cpp}, AvlTree is src/db/avltree.{h,cpp}. Contract is
--     the record of operations and laws that both fill, in HashTable/Database and AvlTree/Database;
--     Agreement compares the two. HashTable/Order is about the order of the entries, with a quotient
--     of tables. Interface is src/db/interface.{h,cpp}.
--   * UnorderedMap: `std::unordered_map` as a list of entries in the order of a loop over it.
--   * JsVm: src/server/jsvm.{h,cpp}, a user's function that the FOR commands call; JsVm/Visit is the
--     loop over the entries that both databases make with it, JsVm/Passes is what the loop leaves of
--     each entry, JsVm/Pure is about functions that neither throw nor remember, JsVm/Console is what
--     scripts print.
--   * Net: Session is src/kernel/net/session.{h,cpp}, as steps on the outstanding operations;
--     Session/Heard is about its parser; Session/Serves, Conversation and Storage are about a client
--     that sends one request after another.
--     System is all sessions over the one `Commands` of src/wrapper/singleton.h; its Requests finds the
--     requests in what the sessions have received, Calls, Own and Serial are about the calls and replies,
--     Refines puts it against Commands/Spec, and Progress is about what it waits for.
--     IoServicePool is src/kernel/net/ioservicepool.{h,cpp}, and its Threads are those of `start`;
--     CommandServer is src/kernel/net/commandserver.{h,cpp}, as steps on the outstanding accepts.
--   * Options: src/util/options.{h,cpp}. Options.antt has the values and the level of verbosity, Config
--     `parseConfigFile`, Parse `parseOptions`, `tryParseOptions` and the options of
--     src/server/options.cpp, and Dump `dumpOptions`.
--   * Main: src/server/boostcached.cpp, from the parsed options to a server.
--   * Exception: src/kernel/exception.h; Exception/StackTrace is src/util/stacktrace.cpp and
--     src/kernel/exceptiontrace.h.
--   * Log, Version: src/util/log.{h,cpp} and src/util/version.cpp.
--
-- How the parts meet. The parser takes an `Executor`, the lookup and call of a command; `executor` of
-- Commands.antt is the program's. A session takes an `Executor` too, so that what holds of sessions
-- holds for any commands. Both databases are instances of the record `Database` of Db/Contract.
--
-- Conventions. `none` of a function that models code is undefined behaviour: a read outside a string
-- or a vector, a pointer to no node. Numbers are natural numbers; `Int32` is the bit pattern of an
-- `int`, and signed overflow wraps around as the compiled code does. Pointers into the command string
-- are the bytes from there to its end. A comparison of `char`s is a comparison of bytes.
--
-- Loops. `split` has fuel, the length of its text and one: each round but the last passes a space.
-- The loop of `parseArguments` recurses on the number of arguments that are left, which each round
-- takes one off. The loops over `-vv` to 20 `v`s have their 19 rounds. The loop of `parseConfigFile`
-- has fuel, the length of the file and one: each round but the last takes a byte. The other loops
-- follow their lists.
--
-- User functions. A FOR whose code is for a value that cannot be called, or for a function whose result has
-- no text, is undefined, as the call behind the `Cast` of src/server/jsvm.cpp is. `IsCallable` of
-- JsVm/Passes says that a code is not such, and `IsSafe` of Commands/Calls that a request is no FOR with
-- such a code.
--
-- What is taken as a parameter: V8 (`V8`), `std::hash` with values below 2 ^ 64 and the order of a loop over
-- the table of commands (`Platform`), whether the system lets an acceptor listen (`Network`), the files, the texts of the version macros, and
-- of boost the intrusive tree (`OrderedSet`, with the documented behaviour of `find`, `insert_unique`
-- and `erase`), `replace_first` and `trim_right_if` (`StringAlgorithms`), `program_options`
-- (`ProgramOptions`) and the `%i` of format (`Decimal`), and of glibc the frames of a stack
-- (`Backtrace`). `dump_options` takes the order of a `std::map`. Examples and the tests have a concrete
-- one of each.
--
-- What is not modelled: boost asio, log and program_options behind their calls; interleavings inside
-- an operation of a database (it holds its lock to its end and is one step); `reserve` and other
-- allocation, so that a negative number of workers, converted to `size_t`, is only a large one; the log messages; the end of the temporary
-- string that `asyncWrite` hands to asio, which may come before that of the write; the unused `m_lineBuffer`; the format of the records of the log's file.
pub mod Prelude
pub mod Wire
pub mod Reply
pub mod CommandHandler
pub mod JsVm
pub mod Db
pub mod UnorderedMap
pub mod Version
pub mod Commands
pub mod Net
pub mod Exception
pub mod Log
pub mod Options
mod Examples
pub mod Main
mod Tests
