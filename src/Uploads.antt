-- ===== src/Uploads.antt =====
-- The handlers of app/main.py for uploads. Each is one request on the shared state, run alone; what
-- a request does between `acquire` and `release`, and on the worker pool, is in its own order.
pub mod Beside
pub mod Access
pub mod Init
pub mod Persist
pub mod ChunkUpload
pub mod Complete
pub mod Download
pub mod Sound
pub mod Serve
pub mod Interleaved
pub mod Contents
