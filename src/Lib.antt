-- ===== src/Lib.antt =====
-- beanstore: a daemon that serves thin lvm volumes of one node and moves them between nodes.
--
-- The parts and the files that model them:
--   Operations       internal/operations/table.go: Begin, Progress, Done, Fail and Get are begin,
--                    progress, mark_done, mark_failed and get on the record Table. A method runs
--                    under the table's mutex, so it is one step. Operations/Phases runs calls.
--   Config           internal/config/config.go: the records; Validation validate and its
--                    parsers, Consistent the theorem on it.
--   Lvm              lvm/: Types the options and lvs, Errors the classification of a failed
--                    command, Client the common arguments and the runner, Decimal the numbers of
--                    strconv, Report the parser of `lvs`, Volumes one function per command, Groups
--                    and Groups/Commands the same for volume groups, Physical for
--                    physical volumes, Extending the commands that the daemon does not call.
--                    Interface is the record of the operations that the storage engine calls,
--                    with the client of Volumes as an instance. Laws states what the program
--                    relies on of lvm2.
--   Storage          internal/storage/: State the states and their tags, Volume the reads, Verbs
--                    and Snapshots the verbs of volumes.go, Pushes pushes.go, Rollback
--                    rollback.go, Recover recover.go, Pins exports.go, Digest digest.go, Reader
--                    reader.go and copy.go, Setup storage.go, Transfers transfers.go: the
--                    table, and in Transfers/Handlers the operations with calls. A verb is a function on
--                    the state of the world that returns a result and the next state, in the
--                    order of the calls of the source; after a failed call nothing further runs.
--   Storage/Tags, Storage/Node    what tags and single calls mean for the states of a node.
--   Storage/Reader/*, Storage/Pins/Counting, Storage/Transfers/Lives, Gaps, Frames, Ids, Once,
--   Limit and Limited    the theorems on digests, copies, pins and transfers.
--   Storage/Attaching, Storage/Pushing, Storage/Recovery, Storage/Starting    the theorems on verbs,
--                    recovery and setup.
--   Api              internal/api/: Server the record of the daemon's state (the operation table,
--                    pins, reserved names, transfers, and the world of lvm), Status the mapping of
--                    errors to gRPC codes, Names the patterns of ids, Volumes, Exports, Receiving,
--                    Pushing, Copies and Rollbacks the handlers of api.go, push.go,
--                    createfromsnapshot.go, pushsnapshot.go and rollback.go, Jobs resolve.go,
--                    Authorize authz.go, Reservations the names that a rollback claims. A
--                    handler that starts a goroutine returns a Job, which Jobs runs afterwards:
--                    the first call and the task are two steps.
--   Api/*/Safety, Api/Jobs/*, Api/Pushing/Target, Api/Exports/Balance, Api/Copies/Taken    the
--                    theorems on pushes, rollbacks, tasks, pins and copies.
--   Base/Keeps, Base/Exec    the rules for a predicate along a chain of calls.
--   Examples         two nodes that satisfy the laws, one with room for one lv and one (Family) with
--                    any number of lvs, on which a rollback runs to its end; two devices; runs.
--
-- How they interact: a verb reads volumes through the `Lvm` record, checks their state, and
-- changes tags and activation by further commands. All state is in the tags of lvm: a state of
-- the world is what the lvm record acts on, and `view` reads the lvs from it. Recovery applies
-- the verbs to every volume of one scan. A push of the API calls the verbs of the source and,
-- through the record Peers, the transfer handlers of the other node: Api/Pushing/Target states
-- what a push relies on there, as TargetLaws: the behaviour that
-- client/proto/beanstore/v1/transfer.proto documents for CommitTransfer and QueryVolume, which is assumed and not derived from
-- the handlers of Api/Receiving. A commit that lands after its call has failed is excluded.
--
-- What is not code under the repository is a parameter: the runner of lvm commands, the JSON,
-- float and duration parsers of Go and its lower case, sha256, the operations on files, and lvm2
-- itself, of which Lvm/Laws assumes documented effects: a report changes nothing and is right, a command that fails changes nothing
-- that the view shows, a command that succeeds has its effect. When a command fails is left
-- open, so the theorems hold for every pattern of failures. Calls of other processes between two commands are not modelled,
-- nor is the context with its deadlines. Wrapping texts of errors and log lines are left out.
-- All functions are structurally recursive but three that run on fuel: the printer of decimals on
-- the number itself, which is more than its digits, the loop over the chunks of a device on its
-- size, which is at least the number of its chunks, and the loop over skipped chunks on the offset
-- where they end, enough up to 2^64 - 2^20 bytes. An operation on the transfers is one step: what other operations do between its
-- critical sections is not modelled.
--
-- In Api, the calls of the other node, the stream of a caller and the text of an error are
-- parameters too; the messages of an answer are left out, its code is kept. The loop of
-- resolveUntilSettled has no end in the source; it takes its number of attempts, and the theorem
-- on it holds for every number.
--
-- Not modelled: the loader of the configuration's layers, the report of the node's capacity,
-- the lvm version report, TLS, logging, the entry point, generated code and I/O.
pub mod Api
pub mod Base
pub mod Codes
pub mod Operations
pub mod Lvm
pub mod Config
pub mod Storage
pub mod Examples
