-- ===== src/Lib.antt =====
-- BuildForge: a build tool that reads a manifest of actions, orders them by their dependencies, runs
-- what is not cached and keeps the outputs by content.
--
-- The parts, and the files that model them:
-- * internal/manifest/manifest.go, in Manifest: `Validate` is `validate`, `Names` is `names`;
--   `checkPaths`, with `path.Clean`, is in Manifest/Paths. The passing manifests are described in
--   Manifest/Valid, and Manifest/Contained is about where their paths lead. The decoder of JSON is a
--   parameter: a manifest is the list of its actions.
-- * internal/graph/graph.go, in Graph: `New` is `new`. `TopologicalOrder` is `topological_order` in
--   Graph/Topological, and `findCycle`, which it calls when it stalls, is `find_cycle` in
--   Graph/FindCycle. Graph/Order says what an order and a cycle of a graph are, and Graph/Build is
--   about what `New` builds: a well-formed graph, which all that follows asks for.
--   internal/graph/critical.go is in Graph/Critical: `CriticalPath` is `critical_path`, over any
--   measured durations.
-- * internal/runner/build.go, in Runner: `Summary` and its methods in Runner/Result, `markDependents`
--   in Runner/Poison, the sequential `Build` in Runner/Build. The driver works over any machine
--   (`Machine`: `Runner.Run` and `ctx.Err()` as functions on a state of the world) for which a result
--   carries its action's name and success comes with a result (`IsRunner`). `logged` in
--   Runner/Build/Logged is a machine that also writes down what it runs, and Runner/Build/Erases
--   relates it to the machine without the log.
-- * internal/runner/runner.go and internal/runner/sandbox.go, in Runner/Run: `Run` is `run`, with every
--   early return, `newSandbox` is `new_sandbox` and `harvest` is `harvest`. The cache is a record of
--   the three methods that the runner calls (`Cache`), which the store and the tiered cache fill in
--   Runner/Run/Caches. The operating system is the parameter `Shell`: it runs a command in the workspace
--   or in a sandbox, whose links lead into the workspace. A sandbox does not confine commands: one
--   that uses only paths inside it, and so finds and changes files through the sandbox and its links,
--   is described by `IsLocal` in Runner/Run/Local. `machine_of` makes the machine that the drivers ask
--   for.
-- * internal/sched/sched.go, in Sched: the parallel `Build` as a step relation on the points at which
--   its goroutines stand, the closed channels, the semaphore and the shared maps. What a goroutine does
--   while it holds the mutex is one step, a channel operation is one step, and an action may end with
--   any result or error: these steps are `Turn`. Cancellation from outside, which may come at any time,
--   is a `Step` beside them.
-- * internal/cache/store.go, in Cache/Store: `Lookup`, `Put`, `Restore` and the access to single blobs,
--   with the directories cas and ac as maps from names to files; the names that the store takes
--   (`shard`) are in Cache/Names. The digest of bytes is a parameter.
-- * internal/cache/key.go, in Cache/Key: `Key` is `key`, and what it digests is `key_bytes`.
--   Cache/Key/Framing is about the framing of these bytes. `ToolCache` is in Cache/Tools.
-- * internal/cache/gc.go, in Cache/Gc: `GC` on what its two scans found.
-- * internal/remote/tiered.go, in Remote/Tiered: `Lookup` and `Put` of the local store before a server,
--   over any client (`Client`), which may answer anything and fail at any request.
-- * internal/remote/server.go and client.go: what they share of HTTP is in Remote/Wire, the handlers are
--   in Remote/Server and the requests in Remote/HttpClient, which fills `Client`. JSON is the parameter
--   `Codec`, and net/http the function that sends a request. Remote/Shared joins client and server.
-- * cmd/buildforge/main.go, in Cli: `load`, `validate`, `printGraph` and `build` from the bytes of the
--   manifest to what they print, with `Load` and `Parse` of the manifest and `Durations` of the
--   scheduler. Cli/Builds joins the parts: the manifest, the graph, the driver, the runner and the
--   critical path. `parseSize` is `parse_size` in Cli/Sizes, with `strconv.ParseInt`.
--
-- Strings are lists of bytes. A Go map that is only read and written is a function; one that is
-- iterated is a list of pairs, in the order of the iteration. Counters that may go below zero are
-- integers (`ℤ`), all others naturals; sizes and times stay below the bounds of int64, except in
-- `parseSize`, where the product wraps around.
--
-- Loops that are not structural take fuel: `kahn_loop` and `mark_from` the number of actions, since
-- each round emits or marks one that was not, and so does `visit` of Graph/FindCycle, of which each
-- call colours a white action; `walk` of Graph/Critical takes the number of actions too, since it goes
-- back in the order with each step.
--
-- Not modelled: the commands' execution, process groups, the transport of HTTP and its headers, SHA-256
-- and the pool that reads files for it, the directory walks of the collector, the writing of files
-- through temporary ones, the failure of file operations for other reasons than a missing or present
-- file, directories, the log, signals, and the reading of flags and JSON, which are input and output; the
-- sorting of the lists that the parallel driver reports; and progress lines, elapsed times and messages.
pub mod Prelude
pub mod Manifest
pub mod Graph
pub mod Runner
pub mod Sched
pub mod Cache
pub mod Remote
pub mod Cli
pub mod Tests
