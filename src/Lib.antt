-- ===== src/Lib.antt =====
-- A verification library of mlua-isle: thread-isolated Lua VMs with pools, channels, selects, task scopes
-- and cancel tokens.
--
-- Parts and files. Base has the shared helpers, Tokio the parameters.
--
--   * Pool models src/pool.rs, `IslePool`: `try_acquire`, the three checkouts, the return and discard
--     of an isle, `shutdown` and the guard, with the names of the source. Each function is one section
--     under the lock; a spawn, which runs outside it, is the gap between `try_acquire` and
--     `finish_spawn`. Pool/Threads interleaves the threads: the condition variable is a count of
--     sleeping and of notified threads, and an event is one section of one thread.
--   * AsyncPool models src/async_pool.rs, `AsyncIslePool`, in the same way; AsyncPool/Tasks
--     interleaves its tasks at their awaits, the drop of a checkout while it awaits a spawn included.
--   * Chan models src/chan.rs: the state `ChanCore` with a heap for what Rust shares by `Rc` (offers,
--     waiters, marks). Chan/Ops has the functions on a channel, Chan/Receive and Chan/Send the futures
--     `Receiving` and `Sending`. A waker is the number of its task and a wake is an entry of `woken`.
--     Chan/Trace runs lists of operations by any tasks, Chan/Parties those of rendezvous
--     futures.
--   * Cancel models src/hook.rs: the tree of `CancelToken`s, where `alive` says which nodes have a
--     strong reference. Cancel/Trace makes the trees that a program can make.
--   * Select models src/select.rs over Chan: the cases `Arm`, `SelectFuture`, and the waits under a
--     token. A select resolves by claiming its mark, which Chan reads when it pairs offers. Select/Cases
--     reads the cases and the options, whose fields are those that the library's builders write.
--     Select/Queues and Select/Left are about the queues that its cases leave, Select/Chosen about a
--     poll that ends.
--   * Hub models src/hub.rs: the merge of the triggers (`install`), `dispatch` with its look for a
--     cancel, its deferral and, in Hub/Dispatch, its calls of callbacks, and the registration. Its
--     triggers and events are those of mlua that the source reads.
--   * Scope models src/scope.rs: the scopes and tasks of a thread, by their addresses, with `Scope::spawn`,
--     the deadlines, the drain and the abort. Scope/Runs has the futures `run_in`, `with_grace` and
--     `run_root` as a list of events, each of which is what one poll does up to its next await.
--     Scope/Structure is about the tree of scopes, Scope/Tokens about the tokens of their tasks,
--     Scope/Deadline and Scope/Tasks about the deadlines and the handles.
--   * Handle models src/handle.rs, src/task.rs and `run_loop` of src/thread.rs: the channel of requests, the
--     channels of the replies, `Task` with its drop, and the end of the thread. Handle/Runs interleaves
--     the threads that use an isle with its own. The standard library's channels are lists.
--   * AsyncIsle models src/async_isle.rs and src/async_task.rs: the bounded channel of requests, the receive
--     loop of `run_async_loop` beside the coroutines that it spawned, the end of the thread, the
--     `shutdown` of the driver and `AsyncTask`. AsyncIsle/Runs interleaves the tasks that use an isle with
--     its own, AsyncIsle/Bodies has the start of the thread and the bodies of the requests, and
--     AsyncIsle/Functions the function handles.
--   * HostChan models src/host_chan.rs: the checks of `channel` and `channel_to_host`, the errors of the
--     ends, and requests. HostChan/Acts has what Lua and the requester do with a request, a tree, since
--     the conversion of an answer can use the request again.
--   * TaskLib models the tasks of src/task_lib.rs: the registry, and the Lua code of the handles of
--     `task.spawn`, over Scope. TaskLib/Runs interleaves their uses with joins, selects and the scopes.
--     TaskLib/Channels has the functions of channels, timers, tickers and selects, over Chan and Select.
--   * Thread models the bodies of the requests in src/thread.rs, under the token of the request, over an
--     interface `Env` of what they call, and `cancellable` and the answer of `run_root` of src/scope.rs.
--   * Runtime models the attachment of a VM, its settings and its task library (src/runtime.rs), and the
--     check that the hook is still the hub's (`ensure_installed` of src/hub.rs).
--   * Protect models src/protect.rs: `call`, the table of the message handler, the Lua code `WRAP_CALL`
--     and `unwrap_root`, and `error_from_value`.
--   * Error models src/error.rs: the error types, and in Error/Convert the conversions from and to the
--     errors of mlua, of which it has the variants that the source names.
--
-- Interaction: Select calls the futures of Chan and shares its heap; a wait of Select looks at the
-- state of a token of Cancel, given as a Boolean; Scope and Handle make their tokens with Cancel, and a
-- task of a scope has a child token of the scope's; the pools, the tasks and the scopes build their
-- errors with Error, and Protect turns what Lua raised into one. AsyncIsle shares the outcomes, replies and
-- threads of Handle and runs the bodies of Thread; TaskLib spawns and ends its tasks in Scope.
--
-- Parameters. Tokio has Lua values and their conversions, the two ends of a tokio mpsc channel, and the
-- interface `Notify` of tokio's `Notify` with its laws: a waker that is registered is woken by
-- `notify_waiters`. Only the theorem on the await of a cancel uses the laws. `Mlua` of Error/Convert has
-- the `Display` of an error and the end of the chain that `downcast_ref` walks, with its documented
-- behaviour as laws, which the theorem on errors that cross uses. `Lua` of Protect has `rawequal`,
-- `tostring` and `Debug` of a value; what `xpcall` does is an argument of `call`. Whether tokio's channel
-- has room for a request, what its sends and receives give, what a coroutine or a job gives, and what a
-- conversion does, are arguments of the operations of AsyncIsle and HostChan.
--
-- Bounds and fuel. A cancel walks the tree on fuel `next`, the number of nodes ever made: a child is
-- younger than its parent, so that a path is never longer. The same holds of the scopes above a scope,
-- which are walked on fuel `next_scope`. A cancel and a `child_token` are each one step; the await of a
-- cancel is not, and the cancels of other threads fall between its parts. A poll of a select runs one
-- round for each case. A round of `run_loop` is one step: a job that runs is still the first of the
-- queue, and its waits block until it ends. A round of the receive loop of an async isle is one step too,
-- up to its `yield_now`; between two rounds any coroutines end. The counters of the hub keep their
-- wrap-around at 32 and 64 bits; those of the pools are natural numbers, bounded by `max_size`, and the
-- subtraction of the source saturates as that of natural numbers does.
--
-- Not modelled: `run` of src/runtime.rs, which is an argument, and its calls of mlua, the setters of
-- `AsyncIsleBuilder`, in src/task_lib.rs and src/select.rs the instants and periods that are computed
-- from floats, the Debug and Display instances, `install` of src/protect.rs, which looks up and stores Lua
-- functions, and `lua_body` of src/scope.rs. Durations are the time that remains, a natural number, and
-- the instants of a scope are numbers; memory order is that of the events. A token of a scope is not
-- released. Lua code does not write the fields of a handle of `task.spawn`.
pub mod AsyncIsle
pub mod Base
pub mod Error
pub mod Pool
pub mod AsyncPool
pub mod Tokio
pub mod Chan
pub mod Cancel
pub mod Select
pub mod HostChan
pub mod Hub
pub mod Thread
pub mod Protect
pub mod Handle
pub mod Runtime
pub mod Scope
pub mod TaskLib
