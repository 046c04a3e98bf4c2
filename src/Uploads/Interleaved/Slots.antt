-- ===== src/Uploads/Interleaved/Slots.antt =====
-- The slots of the limiter under interleaved requests.
pub mod Handlers
pub mod Endings
pub mod Exact
pub mod Runs
