-- ===== src/Uploads/Complete.antt =====
-- `complete_upload` and `missing_chunks` of app/main.py.
pub mod Effect
use distributed_file_service.Prelude.{
  Bool, List, Option, [], count, false, find, if◌then◌else◌, is_some, none, not, select, some, true,
  update, ℕ, ◌&&◌, ◌++◌, ◌+◌, ◌==◌, ◌∷◌,
}
use distributed_file_service.Text.{Bytes, Text, codes, text_eq, truthy}
use distributed_file_service.Exec.{
  Error, Exec, Outcome, gets, http_error, message_of, modify, ok, pure, raise, raise_if, raised,
  try_except, ◌>>=◌, ◌>>◌,
}
use distributed_file_service.Config.{is_s3_compatible}
use distributed_file_service.Models.{
  Chunk, CompleteRequestIdempotency, Db, Upload, UploadStatus, completed, has_id, is_completed,
  is_in_progress, is_initiated, of_upload, order_by_index, uploaded_of,
}
use distributed_file_service.Json.{str}
use distributed_file_service.Storage.{Part}
use distributed_file_service.World.{
  AuthUser, Service, World, audit_event, commit, fingerprint, in_session, in_store, or_raise,
  or_run,
}
use distributed_file_service.Uploads.Access.{get_owned_upload}

pub record CompleteUploadResponse : Type 0 where
  pub upload_id : Text
  pub status : UploadStatus

abbrev pub complete_key_conflict : Error
complete_key_conflict = http_error 409 "idempotency key reused with different complete payload"

abbrev pub complete_key_owner : Error
complete_key_owner = http_error 403 "idempotency key belongs to a different owner"

abbrev pub still_initiated : Error
still_initiated = http_error 409 "cannot complete upload from INITIATED state"

abbrev pub wrong_state : Error
wrong_state = http_error 409 "cannot complete upload from current state"

abbrev pub missing_error : Error
missing_error = http_error 409 "cannot complete upload, missing chunks"

abbrev pub file_checksum_mismatch : Error
file_checksum_mismatch = http_error 409 "file checksum mismatch"

abbrev pub missing_etag : Error
missing_etag = http_error 409 "cannot complete upload, missing S3 part etag"

unfoldable pub replay_completed : AuthUser → Option Upload → Outcome (Option CompleteUploadResponse)
replay_completed user none = ok none
replay_completed user (some u) =
    if text_eq u.owner_id user.user_id
    then ok (some (record { upload_id = u.id; status = u.status }))
    else raised complete_key_owner

unfoldable pub replay_complete_request :
    Text
    → Text
    → AuthUser
    → Db
    → Option CompleteRequestIdempotency
    → Outcome (Option CompleteUploadResponse)
unfolding replay_completed
replay_complete_request print upload_id user db none = ok none
replay_complete_request print upload_id user db (some row) =
    if not (text_eq row.request_fingerprint print)
    then raised complete_key_conflict
    else if text_eq row.upload_id upload_id
    then replay_completed user (find (has_id upload_id) db.uploads)
    else ok none

abbrev pub has_key : Text → CompleteRequestIdempotency → Bool
has_key key r = text_eq r.idempotency_key key

abbrev pub add_complete_request : Option Text → Text → Text → ℕ → Db → Db
add_complete_request none upload_id print now db = db
add_complete_request (some []) upload_id print now db = db
add_complete_request (some (k ∷ key)) upload_id print now db = record db {
  complete_requests =
      db.complete_requests
      ++ record {
        idempotency_key = k ∷ key;
        upload_id = upload_id;
        request_fingerprint = print;
        created_at = now;
      }
        ∷ [];
}

abbrev pub mark_completed : Text → ℕ → Db → Db
mark_completed upload_id now db = record db {
  uploads =
      update (has_id upload_id) (λ u. record u { status = completed; updated_at = now }) db.uploads;
}

-- The chunks of an upload, `order_by(Chunk.chunk_index)`.
unfoldable pub chunks_of : Text → Db → List Chunk
chunks_of upload_id db = order_by_index (select (of_upload upload_id) db.chunks)

-- The parts of a multipart upload; `none` when a chunk has no etag.
unfoldable pub parts_of : List Chunk → Option (List Part)
parts_of [] = some []
parts_of (c ∷ cs) =
    let rest = parts_of cs in
    elim c.s3_etag [
      | none ↦ none
      | some [] ↦ none
      | some (e ∷ etag) ↦ elim rest [
        | none ↦ none
        | some parts ↦ some (record { part_number = c.chunk_index + 1; etag = e ∷ etag } ∷ parts)
      ]
    ]

abbrev pub or_empty : Option Text → Text
or_empty none = []
or_empty (some s) = s

module _ {St Q : Type 0} where
  unfoldable pub complete_replay :
      Text → Text → Option Text → AuthUser → Exec (World St Q) (Option CompleteUploadResponse)
  complete_replay print upload_id none user w = (ok none, w)
  complete_replay print upload_id (some []) user w = (ok none, w)
  complete_replay print upload_id (some (k ∷ key)) user w = (
    replay_complete_request print upload_id user w.session
        (find (has_key (k ∷ key)) w.session.complete_requests),
    w,
  )

  unfoldable pub read_all : Service St Q → List Chunk → Exec (World St Q) Bytes
  read_all v [] = pure []
  read_all v (c ∷ cs) = do
    bytes ← in_store (v.storage.read_chunk c.s3_key)
    rest ← read_all v cs
    pure (bytes ++ rest)

  -- `if upload.file_checksum_sha256: ...`.
  unfoldable pub check_file : Service St Q → Option Text → List Chunk → Exec (World St Q) Unit
  check_file v none chunks = pure tt
  check_file v (some []) chunks = pure tt
  check_file v (some (c ∷ checksum)) chunks = do
    bytes ← read_all v chunks
    raise_if (not (text_eq (v.sha256 bytes) (c ∷ checksum))) file_checksum_mismatch

  -- The parts are collected, and the store puts the object together.
  unfoldable pub send_parts : Service St Q → Upload → List Chunk → Exec (World St Q) Unit
  send_parts v upload chunks = do
    parts ← or_raise (parts_of chunks) missing_etag
    try_except (in_store (v.storage.complete_upload upload.id upload.multipart_upload_id parts))
        λ e. raise (http_error 500 (message_of "failed to complete multipart upload: " e))

  unfoldable pub finish_multipart : Service St Q → Upload → List Chunk → Exec (World St Q) Unit
  finish_multipart v upload chunks =
      if is_s3_compatible v.config && truthy upload.multipart_upload_id
      then send_parts v upload chunks
      else pure tt

  -- Here and below the upload is the one asked for and its owner is the user: `get_owned_upload` has
  -- found it under the id of the request and compared the two.
  abbrev pub audit_complete : Upload → Bool → World St Q → World St Q
  audit_complete u replay = audit_event (record {
    action = "upload_complete";
    upload_id = u.id;
    user_id = u.owner_id;
    status = completed;
    flag = replay;
  })

  -- The upload is completed already: the key is remembered, and the answer is the same.
  unfoldable pub complete_again :
      Upload → Text → Option Text → Exec (World St Q) CompleteUploadResponse
  complete_again upload print key = do
    fresh ← gets (λ w.
        truthy key && not (is_some (find (has_key (or_empty key)) w.session.complete_requests)))
    modify (λ w. if fresh then in_session (add_complete_request key upload.id print w.now) w else w)
    if fresh then commit else pure tt
    modify (audit_complete upload true)
    pure (record { upload_id = upload.id; status = upload.status })

  -- The upload is marked, and the key is remembered.
  unfoldable pub mark_upload :
      Upload → Text → Option Text → Exec (World St Q) CompleteUploadResponse
  mark_upload upload print key = do
    modify (λ w.
        in_session
          (λ db. add_complete_request key upload.id print w.now (mark_completed upload.id w.now db))
          w)
    commit
    modify (audit_complete upload false)
    pure (record { upload_id = upload.id; status = completed })

  unfoldable pub complete_now :
      Service St Q → Upload → Text → Option Text → Exec (World St Q) CompleteUploadResponse
  complete_now v upload print key = do
    uploaded_count ← gets (λ w. count (uploaded_of upload.id) w.session.chunks)
    raise_if (not (uploaded_count == upload.total_chunks)) missing_error
    chunks ← gets (λ w. chunks_of upload.id w.session)
    check_file v upload.file_checksum_sha256 chunks
    finish_multipart v upload chunks
    mark_upload upload print key

  -- The tests of the state that follow the one for INITIATED.
  unfoldable pub complete_by_state :
      Service St Q → Upload → Text → Option Text → Exec (World St Q) CompleteUploadResponse
  complete_by_state v upload print key =
      if is_completed upload.status then complete_again upload print key else (do
        raise_if (not (is_in_progress upload.status)) wrong_state
        complete_now v upload print key)

  unfoldable pub complete_fresh :
      Service St Q → Upload → Text → Option Text → Exec (World St Q) CompleteUploadResponse
  complete_fresh v upload print key = do
    raise_if (is_initiated upload.status) still_initiated
    complete_by_state v upload print key

  unfoldable pub complete_upload :
      Service St Q → Text → Option Text → AuthUser → Exec (World St Q) CompleteUploadResponse
  complete_upload v upload_id key user = do
    let print = fingerprint v ((codes "upload_id", str upload_id) ∷ [])
    upload ← get_owned_upload upload_id user
    replay ← complete_replay print upload_id key user
    or_run replay (complete_fresh v upload print key)
