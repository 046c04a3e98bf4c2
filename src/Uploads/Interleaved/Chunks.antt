-- ===== src/Uploads/Interleaved/Chunks.antt =====
-- The steps of a request on a chunk.
use distributed_file_service.Prelude.{
  Bool, List, Option, [], false, find, if◌then◌else◌, length, none, some, suc, true, update, ℕ,
  ◌++◌, ◌∷◌,
}
use distributed_file_service.Prelude.Int.{pos_part}
use distributed_file_service.Text.{Text}
use distributed_file_service.Exec.{Exec, Outcome, ok, pure, raised, ◌>>=◌, ◌>>◌}
use distributed_file_service.Models.{
  Chunk, Db, Upload, constraints_hold, has_id, in_progress, is_chunk, is_initiated, uploaded,
}
use distributed_file_service.Models.Columns.{set_columns}
use distributed_file_service.Limits
use distributed_file_service.World.{AuthUser, Service, World, integrity_error, open_session}
use distributed_file_service.Uploads.Access.{get_owned_upload}
use distributed_file_service.Uploads.Persist.{ChunkWrite, Schedule, Stored, persist_with_retries}
use distributed_file_service.Uploads.ChunkUpload.{
  ChunkRequest, UploadChunkResponse, add_chunk_request, check_body, check_target, chunk_replay,
  count_chunk, new_chunk, write_of,
}

-- How far a request on a chunk is.
pub data ChunkPhase : Type 0 where
  reading : Upload → ChunkPhase
  admitted : Upload → ChunkPhase
  holding : Upload → ChunkPhase
  persisted : Upload → Stored → ℕ → ChunkPhase
  looked_up : Upload → Stored → ℕ → Option Chunk → ChunkPhase
  chunk_answered : Outcome UploadChunkResponse → ChunkPhase

-- `existing` is changed in the columns that differ from what the query found, or a row is added: what
-- the query found decides, and not what is there now.
unfoldable pub write_chunk_row : Option Chunk → Chunk → List Chunk → List Chunk
unfolding set_columns
write_chunk_row (some existing) c chunks =
    update (is_chunk c.upload_id c.chunk_index) (set_columns existing c) chunks
write_chunk_row none c chunks = chunks ++ c ∷ []

-- `if upload.status == initiated: upload.status = in_progress`, where `upload` is the loaded one.
abbrev pub start_loaded : Upload → ℕ → Upload → Upload
start_loaded upload now u = record u {
  status = if is_initiated upload.status then in_progress else u.status;
  updated_at = if is_initiated upload.status then now else u.updated_at;
}

unfoldable pub commit_chunk :
    Upload → Option Chunk → ChunkWrite → Text → Option Text → Stored → ℕ → ℕ → Db → Db
commit_chunk upload existing c print key stored retries now db =
    add_chunk_request key c print now (record db {
      chunks = write_chunk_row existing (new_chunk c print stored retries now) db.chunks;
      uploads = update (has_id c.upload_id) (start_loaded upload now) db.uploads;
    })

-- Between `acquire` and `release`.
abbrev pub is_holding : ChunkPhase → Bool
is_holding (holding u) = true
is_holding (persisted u s n) = true
is_holding (looked_up u s n e) = true
is_holding _ = false

abbrev pub target_phase : Outcome Upload → ChunkPhase
target_phase (ok upload) = reading upload
target_phase (raised e) = chunk_answered (raised e)

abbrev pub body_phase : Upload → Outcome (Option UploadChunkResponse) → ChunkPhase
body_phase upload (raised e) = chunk_answered (raised e)
body_phase upload (ok (some response)) = chunk_answered (ok response)
body_phase upload (ok none) = admitted upload

abbrev pub after_acquire : Upload → Outcome (Unit {0}) → ChunkPhase
after_acquire upload (ok _) = holding upload
after_acquire upload (raised e) = chunk_answered (raised e)

module _ {St Q : Type 0} where
  abbrev pub released : Text → World St Q → World St Q
  released upload_id w = record w { limiter = Limits.release upload_id w.limiter }

  -- All that comes before the body is read.
  unfoldable pub load_for_chunk : ChunkRequest → AuthUser → Exec (World St Q) Upload
  load_for_chunk r user = do
    upload ← get_owned_upload r.upload_id user
    check_target upload r
    pure upload

  -- All that comes between the body and `upload_limiter.acquire`.
  unfoldable pub admit :
      Service St Q → ChunkRequest → Exec (World St Q) (Option UploadChunkResponse)
  admit v r = do
    check_body v r
    chunk_replay r.upload_id (pos_part r.chunk_index) (v.sha256 r.body) r.idempotency_key

  -- An exception goes through the `finally`.
  abbrev pub after_persist :
      Upload → Text → Outcome (Stored × ℕ) × World St Q → ChunkPhase × World St Q
  after_persist upload id (ok (s, retries), w) = (persisted upload s retries, w)
  after_persist upload id (raised e, w) = (chunk_answered (raised e), released id w)

  -- The commit, the counters, and the `finally`.
  unfoldable pub try_commit :
      Service St Q
      → ChunkRequest
      → Upload
      → Stored
      → ℕ
      → Option Chunk
      → World St Q
      → ChunkPhase × World St Q
  try_commit v r upload s retries existing w =
      let c = write_of upload r in
      let db =
        commit_chunk upload existing c (v.sha256 r.body) r.idempotency_key s retries w.now w.db in
      if constraints_hold db
      then (
        chunk_answered (
            ok
              (record { upload_id = r.upload_id; chunk_index = c.chunk_index; status = uploaded })),
        released r.upload_id (count_chunk (length r.body) (record w { db = db })),
      )
      else (chunk_answered (raised integrity_error), released r.upload_id w)

  unfoldable pub advance_chunk :
      Service St Q → Schedule → ChunkRequest → ChunkPhase → World St Q → ChunkPhase × World St Q
  advance_chunk v schedule r (reading upload) w =
      let (o, w') = admit v r (open_session w) in (body_phase upload o, w')
  advance_chunk v schedule r (admitted upload) w =
      let (o, l) = Limits.acquire r.upload_id w.limiter in
      (after_acquire upload o, record w { limiter = l })
  advance_chunk v schedule r (holding upload) w =
      after_persist upload r.upload_id
        (persist_with_retries (suc v.config.max_retries) v schedule 0 (write_of upload r) w)
  advance_chunk v schedule r (persisted upload s retries) w = (
    looked_up upload s retries (find (is_chunk r.upload_id (pos_part r.chunk_index)) w.db.chunks),
    w,
  )
  advance_chunk v schedule r (looked_up upload s retries existing) w =
      try_commit v r upload s retries existing w
  advance_chunk v schedule r (chunk_answered o) w = (chunk_answered o, w)
