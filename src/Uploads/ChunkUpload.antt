-- ===== src/Uploads/ChunkUpload.antt =====
-- `upload_chunk` of app/main.py.
pub mod Checks
pub mod Effect
pub mod Slots
pub mod Acknowledged
use distributed_file_service.Prelude.{
  Bool, List, Option, [], false, find, if◌then◌else◌, length, ltb, none, not, some, suc, true,
  update, ℕ, ◌&&◌, ◌++◌, ◌+◌, ◌==◌, ◌||◌, ◌∷◌,
}
use distributed_file_service.Prelude.Int.{ltb_ℤ, pos, pos_part, ℤ}
use distributed_file_service.Text.{Bytes, Text, lower, text_eq}
use distributed_file_service.Exec.{
  Error, Exec, Outcome, http_error, modify, ok, pure, raise_if, raised, try_finally, zoom, ◌>>=◌,
  ◌>>◌,
}
use distributed_file_service.Models.{
  Chunk, ChunkRequestIdempotency, ChunkStatus, Db, Upload, has_id, in_progress, is_chunk,
  is_chunk_request, is_in_progress, is_initiated, is_uploaded, uploaded,
}
use distributed_file_service.Models.Columns.{rewritten}
use distributed_file_service.Limits.{acquire, release}
use distributed_file_service.World.{AuthUser, Service, World, commit, in_session, or_run}
use distributed_file_service.Uploads.Access.{get_owned_upload}
use distributed_file_service.Uploads.Persist.{ChunkWrite, Schedule, Stored, persist_with_retries}

pub record ChunkRequest : Type 0 where
  pub upload_id : Text
  pub chunk_index : ℤ
  pub body : Bytes
  pub content_length : ℕ
  pub chunk_sha256 : Option Text
  pub idempotency_key : Option Text

pub record UploadChunkResponse : Type 0 where
  pub upload_id : Text
  pub chunk_index : ℕ
  pub status : ChunkStatus

abbrev pub not_accepting : Error
not_accepting = http_error 409 "upload is not accepting chunks"

abbrev pub index_out_of_bounds : Error
index_out_of_bounds = http_error 400 "chunk index out of bounds"

abbrev pub empty_payload : Error
empty_payload = http_error 400 "chunk payload is empty"

abbrev pub length_mismatch : Error
length_mismatch = http_error 400 "content-length mismatch"

abbrev pub checksum_mismatch : Error
checksum_mismatch = http_error 400 "chunk checksum mismatch"

abbrev pub chunk_key_conflict : Error
chunk_key_conflict = http_error 409 "idempotency key reused with different chunk payload"

abbrev pub is_empty : Bytes → Bool
is_empty [] = true
is_empty (b ∷ bs) = false

-- `chunk_sha256 and chunk_sha256.lower() != chunk_fingerprint`.
unfoldable pub checksum_differs : Option Text → Text → Bool
unfolding lower text_eq
checksum_differs none print = false
checksum_differs (some []) print = false
checksum_differs (some (c ∷ s)) print = not (text_eq (lower (c ∷ s)) print)

unfoldable pub replay_chunk : Text → ℕ → Option Chunk → Option UploadChunkResponse
replay_chunk upload_id index none = none
replay_chunk upload_id index (some chunk) =
    if is_uploaded chunk.status
    then some (record { upload_id = upload_id; chunk_index = index; status = chunk.status })
    else none

unfoldable pub replay_chunk_request :
    Text → ℕ → Text → Db → Option ChunkRequestIdempotency → Outcome (Option UploadChunkResponse)
unfolding replay_chunk
replay_chunk_request upload_id index print db none = ok none
replay_chunk_request upload_id index print db (some row) =
    if text_eq row.request_fingerprint print
    then ok (replay_chunk upload_id index (find (is_chunk upload_id index) db.chunks))
    else raised chunk_key_conflict

-- The row of a new chunk.
abbrev pub new_chunk : ChunkWrite → Text → Stored → ℕ → ℕ → Chunk
new_chunk c print stored retries now = record {
  upload_id = c.upload_id;
  chunk_index = c.chunk_index;
  size_bytes = length c.bytes;
  chunk_checksum_sha256 = some print;
  s3_key = stored.0;
  s3_etag = stored.1;
  status = uploaded;
  retry_count = retries;
  created_at = now;
  updated_at = now;
}

-- The existing row is changed, or a row is added.
unfoldable pub put_chunk : Chunk → List Chunk → List Chunk
unfolding rewritten
put_chunk c chunks = elim (find (is_chunk c.upload_id c.chunk_index) chunks) [
  | some existing ↦ update (is_chunk c.upload_id c.chunk_index) (rewritten c) chunks
  | none ↦ chunks ++ c ∷ []
]

-- `if upload.status == initiated: upload.status = in_progress`.
abbrev pub start_progress : ℕ → Upload → Upload
start_progress now u = record u {
  status = if is_initiated u.status then in_progress else u.status;
  updated_at = if is_initiated u.status then now else u.updated_at;
}

abbrev pub add_chunk_request : Option Text → ChunkWrite → Text → ℕ → Db → Db
add_chunk_request none c print now db = db
add_chunk_request (some []) c print now db = db
add_chunk_request (some (k ∷ key)) c print now db = record db {
  chunk_requests =
      db.chunk_requests
      ++ record {
        upload_id = c.upload_id;
        chunk_index = c.chunk_index;
        idempotency_key = k ∷ key;
        request_fingerprint = print;
        created_at = now;
      }
        ∷ [];
}

-- All that the request writes to the database.
unfoldable pub record_chunk : ChunkWrite → Text → Option Text → Stored → ℕ → ℕ → Db → Db
record_chunk c print key stored retries now db = add_chunk_request key c print now (record db {
  chunks = put_chunk (new_chunk c print stored retries now) db.chunks;
  uploads = update (has_id c.upload_id) (start_progress now) db.uploads;
})

abbrev pub write_of : Upload → ChunkRequest → ChunkWrite
write_of upload r = record {
  upload_id = r.upload_id;
  chunk_index = pos_part r.chunk_index;
  bytes = r.body;
  multipart_upload_id = upload.multipart_upload_id;
}

module _ {St Q : Type 0} where
  unfoldable pub chunk_replay :
      Text → ℕ → Text → Option Text → Exec (World St Q) (Option UploadChunkResponse)
  chunk_replay upload_id index print none w = (ok none, w)
  chunk_replay upload_id index print (some []) w = (ok none, w)
  chunk_replay upload_id index print (some (k ∷ key)) w = (
    replay_chunk_request upload_id index print w.session
        (find (is_chunk_request upload_id index (k ∷ key)) w.session.chunk_requests),
    w,
  )

  abbrev pub count_chunk : ℕ → World St Q → World St Q
  count_chunk bytes w = record w {
    metrics = record w.metrics {
      chunks_uploaded_total = w.metrics.chunks_uploaded_total + 1;
      bytes_uploaded_total = w.metrics.bytes_uploaded_total + bytes;
    };
  }

  -- The body of the `try`, between `acquire` and `release`.
  unfoldable pub store_and_record :
      Service St Q
      → Schedule
      → ChunkWrite
      → Text
      → Option Text
      → Exec (World St Q) UploadChunkResponse
  store_and_record v schedule c print key = do
    stored ← persist_with_retries (suc v.config.max_retries) v schedule 0 c
    modify (λ w. in_session (record_chunk c print key stored.0 stored.1 w.now) w)
    commit
    modify (count_chunk (length c.bytes))
    pure (record { upload_id = c.upload_id; chunk_index = c.chunk_index; status = uploaded })

  unfoldable pub limited : {A : Type 0} → Text → Exec (World St Q) A → Exec (World St Q) A
  limited upload_id body = do
    zoom (λ w. w.limiter) (λ l w. record w { limiter = l }) (acquire upload_id)
    try_finally body (λ w. record w { limiter = release upload_id w.limiter })

  -- The checks before the body is read.
  unfoldable pub check_target : Upload → ChunkRequest → Exec (World St Q) Unit
  check_target upload r = do
    raise_if (not (is_in_progress upload.status || is_initiated upload.status)) not_accepting
    raise_if (ltb_ℤ r.chunk_index (pos 0) || not (ltb_ℤ r.chunk_index (pos upload.total_chunks)))
        index_out_of_bounds

  -- The checks of the body.
  unfoldable pub check_body : Service St Q → ChunkRequest → Exec (World St Q) Unit
  check_body v r = do
    raise_if (is_empty r.body) empty_payload
    raise_if (ltb 0 r.content_length && not (r.content_length == length r.body)) length_mismatch
    raise_if (checksum_differs r.chunk_sha256 (v.sha256 r.body)) checksum_mismatch

  -- The checks before anything is written.
  unfoldable pub check_chunk : Service St Q → Upload → ChunkRequest → Exec (World St Q) Unit
  check_chunk v upload r = do check_target upload r; check_body v r

  unfoldable pub upload_chunk :
      Service St Q → Schedule → ChunkRequest → AuthUser → Exec (World St Q) UploadChunkResponse
  upload_chunk v schedule r user = do
    upload ← get_owned_upload r.upload_id user
    check_chunk v upload r
    replay ← chunk_replay r.upload_id (pos_part r.chunk_index) (v.sha256 r.body) r.idempotency_key
    or_run replay (
        limited r.upload_id
          (store_and_record v schedule (write_of upload r) (v.sha256 r.body) r.idempotency_key))
