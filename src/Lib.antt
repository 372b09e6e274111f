-- ===== src/Lib.antt =====
-- Syncthing: how devices compare the versions of a file, choose the global one and tell each other
-- what they have, how one rebuilds another's file from its own old copy, how its goroutines share the
-- state of a file that is pulled and announce its blocks, how it queues the files to pull and limits
-- what runs at once, and how it gathers what changes below a folder until it is scanned.
--
-- `Protocol.Vector` models lib/protocol/vector.go, the version vectors: a vector is the list of
-- its counters (`Counter` with `id` and `value`), and `update_with_now`, `merge`, `counter`,
-- `drop_others`, `compare` and the four tests on its result are the methods of the same names. A
-- loop over indices is a recursion on what is left of the slices. `Compare`, `Update`, `Merge`
-- and `Order` below it hold the laws. The methods expect vectors sorted by identifier, which is
-- what `IsSorted` says.
--
-- `Protocol.DeviceId` models the check digits of device identifiers, lib/protocol/luhn.go and two
-- functions of lib/protocol/deviceid.go.
--
-- `Protocol.FileInfo` models lib/protocol/bep_fileinfo.go: what a device announces of a file, when two
-- announcements are equivalent, which of two in conflict wins, and the size of blocks.
-- `Protocol.Flags` is its set of local flags, a record with a field for each bit.
--
-- `Protocol.Connection` models what lib/protocol/protocol.go checks of the messages of a peer before the
-- model sees them: `dispatcherLoop` with the checks of names and files. `path.Clean` is a parameter;
-- what its documentation says of the result is `IsClean` in `Names`. `Requests` has the requests that
-- wait for an answer, with what may happen to them in any order, the closing of the connection
-- included; `Tracks` says what each is to get.
--
-- `Database` models the choice of the global version, internal/db/sqlite/folderdb_update.go with
-- folderdb_ancestor.go: `Database.Rows` is the order of the rows of a file, `Database.Global` the
-- function `recalcGlobalForFile`. A table is a list of rows, and the statements in SQL are functions
-- on it. The order is also that of `Protocol.Vector`.
--
-- `Rsync` models lib/rsync. Its types are those of operation.go. `Rsync.BlockSize` is the choice
-- of the block size (operation.go), `Rsync.Rolling` the weak checksum (rolling.go),
-- `Rsync.Generate` the signature of a base, `Rsync.Window` the sliding window over the target,
-- `Rsync.Deltify` the search for blocks and `Rsync.Patch` the way back (all engine.go), and
-- `Rsync.Wire` the encoding and the three calls of a transfer (wire.go). `Rsync.Blocks` says what
-- a stream of operations stands for, independently of the engine, and the parts meet there: a
-- signature describes the blocks of a base, a delta is a stream that stands for the target, and a
-- patch writes what a stream stands for. `Rsync.Uvarint` and `Rsync.Read` are the pieces of the
-- standard library that the code relies on.
--
-- `Model.JobQueue` models lib/model/queue.go: the files that wait and those in progress, with
-- `push`, `pop`, `bring_to_front`, `done` and `jobs`; `Order` and `Pages` below it hold the laws.
-- `Model.Reorder` models the order in which lib/model/blockpullreorderer.go pulls the blocks of a
-- file: each device begins with its own part, and takes the others in a shuffled order; the
-- shuffle is a parameter.
--
-- `Model.Downloads` models lib/model/devicedownloadstate.go, with the messages of
-- lib/protocol/bep_download_progress.go: which blocks a remote device has of the files that it is
-- downloading. It asks `Protocol.Vector` whether two versions are equal. `Has` below it holds the
-- laws.
--
-- `Model.Puller` models lib/model/sharedpullerstate.go, with the calls on the file system as a record
-- of their answers; `Close`, `Steps` and `Progress` below it hold the laws, and `Steps` has the
-- calls of copier, pullers and finisher as steps. `Model.SentDownloads` models
-- lib/model/sentdownloadstate.go, which reads the pullers' states, the blocks and the time of their
-- last change one after the other, and makes the messages that
-- `Model.Downloads` takes in on the other device; `Sync` below it puts the two ends together.
--
-- `Model.Batch` models lib/model/fileinfobatch.go, and `Model.IndexHandler` lib/model/indexhandler.go:
-- `send_index_to` fills a batch from what the database lists and sends it, `Receive` has the checks
-- on the other end, `Complete` how far a call gets, and `Exchange` the calls on both. The sending
-- database is any list of files, the receiving one a record of operations, whose laws are
-- `IsLawful` in `Quiet`; `Sequences` is the part of internal/db/sqlite that fills it: the sequence
-- number of a device, as `Update`, `DropAllFiles` and `GetDeviceSequence` keep it.
--
-- `Semaphore` models lib/semaphore/semaphore.go: one look of a taker at the semaphore, `give` and
-- `set_capacity`, and rows of semaphores; `Semaphore.Steps` has the interleavings of many
-- goroutines as steps, with those that wait and the size that each is lowered to.
--
-- `WatchAggregator` models lib/watchaggregator/aggregator.go: the tree of the events below a folder, a
-- type of directories and of lists of them. `Aggregate` is `newEvent` and `aggregateEvent`, one pass down
-- the tree with a helper for each early return; `Timer` is `actOnTimer` with the batches and delays of
-- `notify`; `Loop` puts the calls in the order in which the main loop takes them. `Valid`, `Walk`,
-- `Counts`, `Room` and `Invariant` hold what the tree and the counts keep to, `Covers`, `Kept`, `Passes` and `Lossless` what
-- the tree stands for, and `Drift` how the counts leave the events behind. The calls of `aggregateEvent`
-- by itself run on fuel, one for each segment of the name and one for ".", which is enough since each
-- is for a directory above the one before.
--
-- `Versioner` models which old versions of a file lib/versioner/staggered.go removes.
--
-- A call of lib/rsync returns a `Result`: a value, an error or a panic. The strong hash (SHA-1)
-- and the largest slice that the runtime allocates are parameters. Integers are natural numbers; in lib/rsync and the vectors the wrap-around of
-- their width is written out, while counters of blocks, sequence numbers and times stay below it.
-- The loops that do not shrink a list run on fuel: `Deltify` gets two rounds for each byte of the
-- target and two more, `emitAllAsData` a round for each byte and one more, and `ensure` two
-- rounds: a round of the first two that does not end the loop consumes a byte or moves between
-- the two loops, and one refill of the window is enough for `ensure`.
--
-- Not modelled: writers and handlers of lib/rsync that fail, the sharing of a vector's slice between
-- its copies, the text forms of a vector and of an identifier, the copies of a file's info to and
-- from the wire types, the other statements on the database, the registry of index handlers and
-- their pauses, the settings of a folder as floating-point numbers, and what is input and output: the folders' work on files, scanning, the wire of a
-- connection, discovery and the web interface.

pub mod Base
pub mod Database
pub mod Model
pub mod Protocol
pub mod Rsync
pub mod Semaphore
pub mod Tests
pub mod Versioner
pub mod WatchAggregator
