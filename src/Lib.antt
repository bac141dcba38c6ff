-- ===== src/Lib.antt =====
-- Verification of the nixsrv server: its built-in services, the messages that they exchange, and
-- the control of access to them.
--
-- The server answers requests that come with a message, a JSON value. A request goes to a route of a
-- module; the module's handler reads fields of the message by dotted keys, changes the module's
-- state, and answers by the message itself or by one of its own. The parts are:
--
-- - Prelude: the names that all share, tests, signed integers (`int`, `long long`) over the native
--   numbers, and calls that may throw. `undefined` stands for undefined behaviour, `blocked` for a
--   call that waits for another thread.
-- - Json and Double: the JSON library (jsoncpp) and the type `double`, which are not in the
--   repository: their operations and the documented behaviour that is relied on are the fields of
--   records that all the rest takes as instances. Tests/Value and Tests/Jobs give instances.
-- - Util: `split` of src/nix/util/string.cxx. Its loop runs on fuel, the size of the text and one
--   more, which is enough since each round consumes a character.
-- - Status and Message: src/nix/status_code.hxx, src/nix/message.hxx and src/nix/message.cxx. A
--   message is its root value; a setter answers the new root or the exception. The loops of `set`,
--   `append`, `remove` and `find` are recursions on the list of keys.
-- - Incoming: src/nix/message/incoming.cxx. A handler is a function on a world: the state of its
--   module, the handle of the request, the root of its message, and what was handed to the transport
--   so far. What was written before an exception stays written. The transport (yami) is recorded.
-- - Table and NameSet: the maps and sets with text keys of the C++ library.
-- - Resolver, Cache, JobQueue: the services of src/nix/module/builtin/service, a record for the
--   state and a function for each handler. Their `Requests` and `Stats` modules run any sequence of
--   requests. Queue and Job are src/nix/queue.hxx and src/nix/job.cxx.
-- - Resolver.Monitor: a round of the resolver's monitor, with the answer to its ping as an argument.
--   Resolver.Live: its rounds, in any order with the requests that come between them, and those to
--   bind a service in the two halves that stand before and behind the module's lock.
-- - Cache.Live: the two halves of a request to retrieve a value, each of which holds the lock once, in
--   any order with the other requests.
-- - JobQueue.Destroy: the destructor of the job queue. JobQueue.Late: `get_work` in two steps, between
--   which the worker's result may come.
-- - Auth: src/nix/core/auth.cxx. Dispatcher: src/nix/server/dispatcher.cxx, where a route's handler
--   is a number, and what is done with a request is a value.
-- - Response: src/nix/message/response.cxx, what a client reads of the answer to its request. The
--   outgoing message of the transport (yami) is its state and its texts.
-- - Clients: the clients of src/nix/core, a module for each class, over an agent of the transport
--   that is an argument: what it answers to a message, or that it throws. A null pointer is `none`,
--   and its use is `undefined`. Clients.Exchange joins a client with the handler of a service.
-- - ObjectPool and Clients.ClientPool: src/nix/object_pool.hxx and src/nix/core/client_pool.cxx. A
--   waiting `acquire` is a recursion on the pools that it finds each time it is woken.
-- - Modules: src/nix/module.cxx, src/nix/server.cxx, src/nix/module/instance.cxx and
--   src/nix/module/manager.cxx. The dynamic linker is a record of what its calls answer; a module's
--   start and stop are events, in the order in which they happen. Modules.Background is the thread of
--   the cache or the resolver with its mutex, as a step relation over a pass that is one step.
-- - Setup: src/nix/init/common.cxx and src/nix/queue/options.cxx, over the values that the program's
--   options have. What boost reads in the file that configures the queues is an argument.
-- - Setup.Declared, Setup.Parse: src/nix/program_options.cxx, over a parser (boost) that is a record
--   of what it stores, with what it documents of the types of what it stores.
-- - Util.Fs, Util.Pid, Setup.Daemon: src/nix/util/fs.cxx, src/nix/util/pid.cxx and
--   src/nix/init/daemon.cxx, over the calls of the system, a record with an unknown state. Its laws on
--   files are POSIX's. Tests/Files has an instance.
-- - Setup.Databases: src/nix/db. Setup.Paths: the set-up of the log and of the modules' names.
-- - Main: src/main.cxx, from the parsed options to the code that the program ends with.
-- - QueueWorker: src/nix/queue/worker.cxx, the rounds of a worker over a pool of clients. What a worker
--   does with a job is an argument.
-- - Simulator: src/simulator/src, the calls of the clients that simulate load, and the runs of those of
--   the resolver and of the status.
-- - Debug: src/nix/module/builtin/debug.cxx and its worker. A round of a worker that finds nothing
--   to do changes nothing.
-- - Tests: a small JSON library, and each theorem applied at concrete values.
--
-- Times and new identifiers are arguments of the handlers. A handler is one step: the points at
-- which it gives up its lock between reading and writing are not interleaved with other requests,
-- those of the resolver's monitor, of `bind_service` and of the cache's `retrieve` are, and the last
-- one of `get_work`.
-- Other locks and threads, signals, logging, and the sleeps of debug builds are left out. Not
-- modelled are the parser of the options (boost), the helpers on paths that only call the system,
-- the simulator's client of the cache, and the test tools.
pub mod Prelude
pub mod Json
pub mod Util
pub mod Response
pub mod ObjectPool
pub mod Clients
pub mod Modules
pub mod Setup
pub mod Main
pub mod Debug
pub mod Status
pub mod Message
pub mod Incoming
pub mod Table
pub mod NameSet
pub mod Resolver
pub mod Cache
pub mod Auth
pub mod Dispatcher
pub mod Queue
pub mod QueueWorker
pub mod Double
pub mod Job
pub mod JobQueue
pub mod Simulator
pub mod Tests
