-- ===== src/Lib.antt =====
-- Verification library of sercha-core: models of the program's own core logic, with the theorems
-- that make it correct.
--
-- OAuth models the OAuth 2.0 authorization server, in which an MCP client registers, sends a user
-- to consent, and exchanges the code it gets for tokens:
-- - OAuth/Domain and OAuth/Scopes: the records and checks of internal/core/domain/oauth_server.go.
-- - OAuth/Stores: internal/adapters/driven/postgres/oauth_server.go as programs over a database
--   state with four tables. A statement of the source is one step, which is atomic; it fails with
--   the error `internal` when the state's `down` says so at that call, and otherwise respects the
--   keys and the references of internal/adapters/driven/postgres/migrations/0001_initial_schema.sql.
--   Stores/Keeps has the rules for what a program keeps, Stores/Rows the ones for predicates of the
--   rows, Stores/Steps reads a run backwards.
-- - OAuth/Registration, Authorization, Exchange, Validation: RegisterClient and GetClientPublicInfo,
--   Authorize, Token with its two grants, Revoke and ValidateAccessToken of
--   internal/core/services/oauth_server.go; each is the whole handler. Clock readings, generated IDs
--   and random strings are arguments (OAuth/External), since each call draws them anew; hashing and
--   signed tokens are functions of which nothing is assumed.
-- - OAuth/History: operations in any order and with any outcome, the upkeep of the tables included.
--   An operation runs to its end before the next begins, so that two refresh exchanges that overlap
--   are not in these histories.
-- Times are nanoseconds since the epoch. The text of an error is left out, since callers tell
-- errors apart by their sentinel.
--
-- Tasks models the background tasks:
-- - Tasks/Domain: internal/core/domain/task.go, with the int64 arithmetic of the backoff.
-- - Tasks/Queue: internal/adapters/driven/queue/postgres/queue.go over one keyed table. A statement
--   or a transaction is one step. Tasks/Queue/History has any calls of any workers in any order; a
--   Nack, which is two statements, is one step there. Of two waiting tasks with the same priority and
--   creation time the model takes the one that the table has first, where the source leaves it open.
-- - Tasks/Redis: internal/adapters/driven/queue/redis/queue.go, the same queue over Redis. Redis/Store is
--   the server as it is documented: records and keys that expire, a sorted set, and a stream with the
--   deliveries of its consumer group, which is there from the start and whose position splits the stream in
--   what was read and what was not. Redis/Scans has the lists and the statistics.
--   An operation is one step with an argument that says which of its calls fail and how much of a
--   pipeline arrives; Redis/Reading has the dequeue. A task is taken to come back from JSON as it went in,
--   and no ID of a task to end in ":msg". Redis/History has any operations of any workers in any order.
-- - Tasks/Reports and Tasks/Totals: the reads of internal/adapters/driven/queue/postgres/queue.go, of
--   GetJobStats the first query. Stats takes the statuses whose rows arrive as an argument, since a loop
--   over rows that breaks off goes unnoticed. Tasks/Jobs and Tasks/Upcoming: ListJobs and
--   GetUpcomingJobs of internal/core/services/admin.go, NewJobHistory and NewUpcomingJobs of
--   internal/core/domain/job_stats.go. A limit or an offset below 0 counts as 0. Each query reads the rows
--   again.
-- - Tasks/Schedules and Tasks/Scheduler: internal/adapters/driven/postgres/scheduler_store.go and the
--   cycle, EnableScheduledTask, DisableScheduledTask and TriggerNow of
--   internal/core/services/scheduler.go. A cycle runs to its end before another changes the schedules.
--
-- Sync models the synchronisation of sources, the flow from a connector to the index:
-- - Sync/Domain, Documents, Ledger: the records, the documents table of
--   internal/adapters/driven/postgres/document_store.go, and the failed documents of
--   internal/adapters/driven/postgres/sync_failed_doc_store.go.
-- - Sync/World: what a run reads and writes. Calls are numbered, and every answer from outside (a
--   failure, a clock, a connector, the pipeline) is a function of the number; the requests to the search
--   engine, the vector index and the observers are kept as a list.
-- - Sync/Changes, Containers, Pages, States, Sources: internal/core/services/sync.go from one change to
--   SyncSource and SyncAll. The pool of goroutines takes the changes of a page in the order of the list, a
--   change as one step; since a connector may list them in any order, so may the pool. The loop over the
--   pages runs on fuel for as many pages: a connector that always has a next page is called for ever, and
--   out of fuel the result is `none`.
--
-- Capabilities models ResolveCapabilities of internal/core/domain/capability.go. Its loop runs on fuel,
-- one more than there are capabilities, which is enough since each run but the last disables one.
--
-- Content models matchPattern of internal/core/services/content_filter.go over bytes. Its loops over
-- indices are recursion on the number of indices left.
--
-- Chunking models windowText of internal/adapters/driven/pipeline/stages/indexing/chunker.go. Its loop
-- runs on fuel, one more than the bytes of the body, since each window starts behind the one before;
-- out of fuel the result is `none`. The chunk size and the overlap are taken as not negative.
--
-- Not modelled: HTTP, MCP, connectors, AI providers and search engines, which are clients of other
-- systems, and the user interface.
pub mod Base
pub mod Capabilities
pub mod Chunking
pub mod Content
pub mod OAuth
pub mod Sync
pub mod Tasks
