-- ===== src/Lib.antt =====
-- A file service that takes uploads in chunks: a client announces a file, sends its chunks in any
-- order, completes the upload, and downloads the file or a range of it.
--
-- The parts and their files (paths from the repository's root):
-- - Prelude, Text, Exec, Dict, Json: shared. Text and bytes are lists of codes; Exec is code that
--   changes a state and may raise, where an HTTPException is told apart from other exceptions and the
--   state outlives a raise; Json is `json.dumps` with sorted keys on flat objects.
-- - Limits (app/limits.py): `PerUploadInflightLimiter`. Limits/Holders interleaves requests.
-- - Worker (app/worker.py): `BackpressureExecutor`. Worker/Lifecycle interleaves tasks; Worker/Autoscale
--   is the autoscaling of app/main.py.
-- - Range, Stream (app/main.py): `_parse_range` and `_stream_bytes_for_range`.
-- - Config (app/config.py), Models (app/models.py): settings and tables; Models/Columns is what the ORM
--   writes of a changed row.
-- - Storage (app/storage.py): the interface, the local store and the S3 store over a client.
-- - DurableQueue (app/durable_queue.py): tasks, the queue interface, the queue in memory, the results.
-- - Backends (app/storage.py, app/durable_queue.py): `build_storage` and `build_durable_queue`, and
--   Backends/Verify the exit code of scripts/verify_queue_mode.py.
-- - World: what the handlers share. A request works on a session, a copy of the database; a commit
--   writes it back when the unique constraints hold.
-- - Uploads (app/main.py): Access is `_get_owned_upload`, Init `init_upload`, Persist the storing of a
--   chunk on the pool or through the queue, with the retry loop (Persist/Drain runs a consumer's
--   rounds), ChunkUpload `upload_chunk`, Complete `complete_upload`, Download `missing_chunks` and `download`. Uploads/Serve runs requests one after
--   another, and Uploads/Sound is the invariant of the tables. Uploads/Interleaved cuts `upload_chunk`
--   and `complete_upload` into the steps that other requests can get between, with the upload that a
--   session has loaded staying as it was; Interleaved/OneProcess runs them on one event loop.
--   Uploads/Contents is an abstract view, a map from an upload and an index to bytes, which the rows of
--   chunks and the files of `LocalChunkStorage` keep; Uploads/Beside is what requests that store no
--   chunk leave alone of the limiter and the store.
-- - Auth (app/auth.py): the rate limiter, API keys and tokens, `require_api_user`.
-- - Maintenance (app/maintenance.py): `cleanup_once`; whether the database cascades is an argument.
--   Maintenance/Kept runs cleanups and requests on uploads in any order.
-- - Errors (app/main.py): what the exception handlers answer.
-- - Migrations (alembic/versions): the four migrations, over the operations of Alembic as a parameter;
--   Migrations/Declared is what app/models.py declares.
-- - Tests: the theorems at concrete inputs.
--
-- In Uploads/Serve a request runs alone from its session's start to its end; in Uploads/Interleaved
-- requests on chunks and on completion overtake each other at any step. The limiter and the executor,
-- whose methods hold a lock, are also modelled under every interleaving of their steps. SHA-256,
-- `jwt.decode`, the S3 client and the queue's service are parameters.
--
-- Fuel: the retry loop has one attempt more than `max_retries`, which is enough for every store and
-- queue; an S3 listing has a bound on its pages, enough when the listing has no more pages than that.
-- Waiting for a queued task has a number of polls in place of a deadline; the wait blocks the event
-- loop on which the consumers of the process run, so no round of theirs comes between two polls.
--
-- Bounds: integers are unbounded as in Python; settings are taken to be non-negative. The number of
-- chunks is that of the float division of the source, for chunk sizes up to 2^1000. A file size is
-- positive, as the request's schema has it.
--
-- The files of the local store are a map: a write replaces a file at once and does not fail. A disk
-- that is full or a write that ends half-way is outside the model.
--
-- Not modelled: the page of app/ui.py, metrics and tracing set-up, logging, the database engine,
-- the construction of the boto3 and Redis clients, the environment of the migrations, the other
-- scripts.
pub mod Prelude
pub mod Text
pub mod Exec
pub mod Dict
pub mod Limits
pub mod Worker
pub mod Range
pub mod Stream
pub mod Config
pub mod Models
pub mod Storage
pub mod DurableQueue
pub mod Json
pub mod World
pub mod Backends
pub mod Auth
pub mod Uploads
pub mod Maintenance
pub mod Errors
pub mod Migrations
pub mod Tests
