-- ===== src/Lib.antt =====
-- A model of the parts of the LangBot plugin SDK that keep tenants apart and resources bounded and
-- theorems about it. A path below is under src/langbot_plugin/ of the repository.
--
-- Parts. The plugin runtime serves many Workspaces from one process. Its messages travel in frames
-- over a pipe or a WebSocket (runtime/io/connection.py, runtime/io/connections/stdio.py and ws.py).
-- Each message has an envelope that names the instance, the Workspace, the generation of its
-- placement and the plugin installation (entities/io/context.py); the runtime context
-- (runtime/context.py) admits it or fences it off. The worker policy of the same files limits the
-- workers of an installation. A worker that dies is restarted by its supervisor, which asks the
-- restart coordinator (runtime/plugin/restart_coordinator.py) for a permit. Blocking work goes
-- through the bounded executor (runtime/bounded_executor.py), which charges it to the scope of its
-- Workspace. What a plugin logs is kept in a ring buffer (runtime/plugin/logbuffer.py). On each side
-- of a connection a handler (runtime/io/handler.py) checks the envelopes, matches responses with the
-- calls and streams that wait for them, and transfers files in chunks. The Box sandbox
-- (box/runtime.py, box/tenancy.py) runs sessions for a Workspace while a grant admits it. A plugin
-- under development identifies its Workspace by a random token (runtime/security.py); one that the
-- runtime launches presents a capability to the plugin manager (runtime/plugin/mgr.py), which also
-- keeps the workers of the desired installations within the worker policy. The package of a plugin is
-- tested and extracted by the artifact store (runtime/plugin/artifact.py). A monitor watches the
-- delays of the event loop (runtime/event_loop_monitor.py).
--
-- Files.
--   Prelude      tests on numbers, lists, results, dictionaries in insertion order, deques, integers, and the
--                choice of one element of a list.
--   Connection   `split_utf8_chunks`; Stdio and WebSocket are `send` and `receive` of the two
--                connections, StdioLaws and Accepted what a pipe carries and what is accepted from any
--                peer.
--   Handler      `Handler` of runtime/io/handler.py: its contexts; Bound is what a binding guarantees.
--                Files and Transfer are the transfer of files, SafeKey, Delivered, Tracked and Owned its theorems;
--                Dispatch is what a handler sends for a request, Streamed how a stream at the other end gets
--                it; Calls is the state of the calls, System
--                the events of all tasks, peer and transport, and Sound, Preserved, Settled, View and
--                Ordered are about every sequence of events.
--   Registration the registration capabilities of runtime/plugin/mgr.py, which refer to the fence; Events
--                is every sequence of calls, Once and Provenance what a capability is worth.
--   Installations the installations of runtime/plugin/mgr.py: Apply, with the removal, and Reconcile are
--                the operations, Events every sequence of them. Counted, Updated, Managed and Applied are
--                about the tables, Tasks, Workers, Staffed and Kept about the supervisor tasks, Desired about the
--                desired state; Invariant, Current and Reconciled hold the theorems.
--   Archive      `_extract_verified_zip` of runtime/plugin/artifact.py: Check is the loop over the members,
--                Extract the loop that writes the files; Contained, Apart and Loop are about the targets
--                and the first loop, Verified, Extracted and Complete hold the theorems.
--   Monitor      `EventLoopLagMonitor` of runtime/event_loop_monitor.py; Recorded is about the samples that it
--                keeps, Percentile about what it reports.
--   Box          Tenancy is box/tenancy.py, the names of the sessions of a Workspace, with Separate and
--                Named about them; Admission, with Grants, is the sandbox admission of box/runtime.py
--                and the grants of box/models.py, Events every sequence of requests, Heap, Revoked and
--                Expired its theorems. Sessions is the table of the sandbox sessions of box/runtime.py,
--                System the interleavings of its tasks, Capacity, Separate and Reaped about them.
--   Context      the records of entities/io/context.py and the comparison of contexts; Policy is
--                `PluginWorkerPolicy` with its validators.
--   Fence        `RuntimeContext`, one function for each method that changes it; Order, Shared and
--                Fenced are about how the bindings of an installation follow each other.
--   Executor     the state of `BoundedThreadPoolExecutor` and each of its locked blocks; Limits is the
--                validation of the configuration; System is the step relation of all threads and tasks;
--                Submit is `submit` and `finish` as whole functions, the default executor and the
--                submission helpers; Invariant and Safety are about all interleavings.
--   Restart      the state of `PluginRestartCoordinator` and its operations; Permit is `RestartPermit`;
--                System is the step relation of the supervisors, where each step is the code between
--                two awaits; Invariant and Cooldown are about all interleavings.
--   LogBuffer    `PluginLogBuffer` of runtime/plugin/logbuffer.py; Stream is the reader of a plugin's
--                stderr, and the other modules hold what the buffer retains, returns and occupies.
--   DebugToken   `WorkspaceDebugTokenStore` of runtime/security.py, without the text of the time;
--                Resolve is about the scope that a token stands for.
--   A module named Tests holds runs at concrete inputs.
--
-- How the code is read. A method is a function from the state to the new state, or to a `Result`
-- where it can raise; the constructors of an error type stand for the exceptions with their
-- messages. Code under a lock, or between two awaits of the event loop, is one step, and theorems
-- about interleavings quantify over every sequence of steps. A semaphore is the number of its free
-- permits. Monotonic time is counted in ticks; a limit that is a float in the code (CPUs, seconds)
-- is counted in units of 2 ^ -1074, of which every finite float is a whole number. Python's
-- integers are unbounded, so no sum wraps around; a count that the code decrements stops at 0 in
-- the model. Every loop runs over a list or is a sequence of steps, so no fuel is used. A text is
-- the list of its code points, without surrogates.
--
-- Not modelled. The thread pool, the event loop, JSON, sockets, pipes and processes are libraries:
-- what is used of them is a parameter with its documented behaviour, or the choice of the next
-- step. Logging, the command line, the templates and the code that only moves data between the
-- runtime and a plugin have no state of their own to go wrong. Of the handler the encoding of
-- messages and the life of a cancelled task are left out; SHA-256, UUIDs, base64 and `str.strip`
-- are parameters, and so is what the file system refuses. The plugin manager is modelled without
-- the processes and connections of its workers, and what the artifact store and the dependency
-- store answer it is a parameter. The rest of the plugin manager and of these stores is outside
-- this library, and so are the processes of the Box sandbox and the sessions of its backend that no
-- table has. An operation of the plugin manager is one step: one that is cancelled halfway is
-- outside the model.
pub mod Prelude
pub mod Executor
pub mod Restart
pub mod Context
pub mod Fence
pub mod Box
pub mod Connection
pub mod LogBuffer
pub mod DebugToken
pub mod Handler
pub mod Registration
pub mod Installations
pub mod Archive
pub mod Monitor
