-- ===== src/Uploads/Interleaved.antt =====
-- Requests on chunks and on completion that run at the same time, in app/main.py. Each handler has a
-- session of its own. It is cut where others can get in between: after it has loaded its upload,
-- after it has a slot, after the bytes are stored, and after each query that it goes on with. The
-- upload that it loaded stays in its session as it was, while later queries and the commit see the
-- tables of their own time. Within one process `upload_chunk`, a coroutine, gives way only while it
-- waits for the body, and the other handlers run on threads; the other cuts are those of several
-- processes on one database and one store.
pub mod Chunks
pub mod Completion
pub mod Systems
pub mod Commits
pub mod Slots
pub mod Tables
pub mod Forward
pub mod Alone
pub mod OneProcess
