-- ===== src/Lib.antt =====
-- Verification library of the live syncinator server (Go): the server that Obsidian clients use to
-- edit the files of a workspace together. A client sends the changes of a text file as chunks over a
-- web socket; the server brings them past what others did meanwhile, applies them to the cached
-- file, records them, and broadcasts them. A worker writes cached files back to the storage and makes
-- snapshots; an HTTP interface creates, reads, renames and deletes files.
--
-- The files and the code they model:
--   Prelude     shared helpers: tests on numbers, lists, int64 with its wrap-around
--   Diff        pkg/diff/diff.go. `Diff.Edit` is the specification: edits on plain numbers.
--               `Diff.Splice`, `Diff.Apply` and `Diff.Transform` relate the int64 code to it,
--               `Diff.Commute`, `Diff.Convergence` and `Diff.History` are about concurrent edits,
--               `Diff.Compute` about the chunks of a difference, `Diff.Validate` about what
--               clients may send.
--   Outcome     Go's (value, error) as a result, and computations over a state that may fail
--   Repository  internal/repository: a child module for the queries of each table, and
--               `Repository.Transactions` for what calls and transactions leave;
--               `Repository.Unique`, `.Integrity`, `.Keeps`, `.Intact` and `.IntactRows` are about
--               the constraints of the schema, and `Repository.Others` about the files of the
--               workspaces that a query is not for
--   Storage     the interface of pkg/filestorage/filestorage.go, with the laws of its comments
--   FilePath    of path/filepath and strings, and FileSystem of os, what the next file uses
--   Disk        pkg/filestorage/disk.go
--   Server      the state of pkg/server.go, and the code of other packages that it stands on
--   Options     the options of pkg/server.go and their defaults
--   Subscriber  a connection's two loops (pkg/subscriber.go)
--   Broadcast   the subscribers and their queues (pkg/ws.go, pkg/subscriber.go)
--   Flush       the cache of files and its write-back (pkg/ws.go, pkg/server.go)
--   Sync        onChunkMessage and what it calls (pkg/ws.go)
--   Snapshots   snapshots and the worker's pass (pkg/ws.go)
--   Expiry      the purge of old operations (pkg/ws.go)
--   Mime        internal/requestutils/mime.go
--   Http, Api   the handlers of pkg/api.go as chains of steps that may answer the request
--   Encoding    writeMultipartResponse and writeJSON of pkg/api.go
--   Auth        pkg/middleware/auth.go, pkg/middleware/middleware.go, pkg/auth.go
--   Command     cmd/cli/main.go, the command that makes a workspace
--   Start       internal/env/env.go, New and Close of pkg/server.go, and cmd/main.go
--   System      the whole as a step relation: requests, messages, connections, ticks and the
--               command in any order. `System.Keeps`, `.Files`, `.Taking`, `.Snapshots`,
--               `.Requests`, `.Owned` and `.Routes` carry predicates through the handlers,
--               `System.Sound` through the steps. `System.Isolated` is about the files of other
--               workspaces, `System.Calm` and `System.Progress` about the worker's progress.
--   Mux         of net/http its ServeMux, and strconv.Atoi
--   Routing     ServeHTTP, the tables of routes of pkg/server.go, pkg/api.go, pkg/auth.go and
--               pkg/ws.go, and the middlewares around them. `Routing.Table` lists what may be asked
--               of the API, `Routing.Access` is about tokens, `Routing.Keeps` and `Routing.Tenants`
--               about what a request leaves alone, `Routing.Authority` about what its tokens
--               let it do.
--   Tests       a concrete platform, runs, and the theorems at concrete inputs
--
-- Functions keep the names of the code, in snake_case: `transform_stale_chunks` is
-- transformStaleChunks, `delete_file_handler` is deleteFileHandler. A function of the code that
-- changes the server is a function from the server's state to a result and the next state.
--
-- What is external is a parameter: golang-lru, encoding/json on chunks, crypto/sha256 and go-diff are
-- fields of `Server.Platform`, golang-jwt and strconv of `Auth.Jwt`, the standard library's tables of
-- types of `Mime.MimeTables`, bcrypt an argument. `Routing.Network` bundles these with rs/cors, which
-- may answer a request itself, and with the accepting of a web socket. SQLite is modelled by lists of rows with the
-- constraints of internal/migration/migrations; `Database.faults` says of each coming call whether it
-- fails for an outside reason, so that a statement for all states holds for every pattern of failures;
-- `Database.foreign_keys` is one flag, where SQLite has one for each connection of the pool.
--
-- Conventions: texts are lists of runes, and a Go string is taken for its runes; times and durations
-- are in nanoseconds; an `int64` wraps around; a run-time panic is `none`, or the error `panicked`, behind
-- which a run of the model may go on where the process has ended.
-- Pointers to cached files are references into `Syncinator.heap`, and pointers to subscribers are
-- numbers too. The loops of the code are over lists and are structural recursion, so that there is no
-- fuel; the hundred attempts of CreateObject are counted down. The two loops of a connection and the
-- workers, which do not end, are modelled by their turns. A turn, a handler or a tick runs as one step
-- of `System.Step`: the locks of the code make the parts that are about one file run one after the
-- other, and interleavings inside a handler are not modelled. A system call of `FileSystem` may be
-- made to fail by `FileSystem.faults`; a copy that fails has then written a part.
--
-- Not modelled: the web socket library and the limiters, whose outcomes are arguments of a turn;
-- tickers and contexts; archive/zip, whose outcome is an argument of the export; flags, signals and
-- sockets, goose and go-envconfig, which are outcomes in `Start.Outside` and `Start.Envconfig`; the
-- log. A request's path is taken as cleaned and cut at its slashes, and its body as read and decoded.
-- Symbolic links, permissions and other processes are left out of the file system.
pub mod Prelude
pub mod Diff
pub mod Outcome
pub mod Repository
pub mod Storage
pub mod Server
pub mod Mux
pub mod Options
pub mod Broadcast
pub mod Flush
pub mod Sync
pub mod Subscriber
pub mod Expiry
pub mod Snapshots
pub mod Mime
pub mod Http
pub mod Api
pub mod Encoding
pub mod Auth
pub mod Command
pub mod FilePath
pub mod FileSystem
pub mod Disk
pub mod System
pub mod Routing
pub mod Start
pub mod Tests
