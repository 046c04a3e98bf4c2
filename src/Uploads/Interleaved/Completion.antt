-- ===== src/Uploads/Interleaved/Completion.antt =====
-- The steps of a request to complete.
use distributed_file_service.Prelude.{
  List, Option, [], count, if◌then◌else◌, none, not, some, ◌==◌, ◌∷◌,
}
use distributed_file_service.Text.{Text, codes}
use distributed_file_service.Exec.{Exec, Outcome, ok, pure, raised, ◌>>=◌, ◌>>◌}
use distributed_file_service.Models.{
  Chunk, Upload, is_completed, is_in_progress, is_initiated, uploaded_of,
}
use distributed_file_service.Json.{str}
use distributed_file_service.World.{AuthUser, Service, World, fingerprint, open_session}
use distributed_file_service.Uploads.Access.{get_owned_upload}
use distributed_file_service.Uploads.Complete.{
  CompleteUploadResponse, check_file, chunks_of, complete_again, complete_replay, finish_multipart,
  mark_upload, missing_error, still_initiated, wrong_state,
}

-- How far a request to complete is.
pub data CompletePhase : Type 0 where
  loaded : Upload → CompletePhase
  counted : Upload → CompletePhase
  listed : Upload → List Chunk → CompletePhase
  assembled : Upload → CompletePhase
  complete_answered : Outcome CompleteUploadResponse → CompletePhase

abbrev pub complete_phase : Outcome (Upload × Option CompleteUploadResponse) → CompletePhase
complete_phase (raised e) = complete_answered (raised e)
complete_phase (ok (upload, some response)) = complete_answered (ok response)
complete_phase (ok (upload, none)) = loaded upload

module _ {St Q : Type 0} where
  -- All that comes before the tests of the state.
  unfoldable pub load_for_complete :
      Service St Q
      → Text
      → Option Text
      → AuthUser
      → Exec (World St Q) (Upload × Option CompleteUploadResponse)
  load_for_complete v upload_id key user = do
    upload ← get_owned_upload upload_id user
    replay ←
        complete_replay (fingerprint v ((codes "upload_id", str upload_id) ∷ [])) upload_id key user
    pure (upload, replay)

  abbrev pub next_phase :
      {A : Type 0} → CompletePhase → Outcome A × World St Q → CompletePhase × World St Q
  next_phase next (ok a, w) = (next, w)
  next_phase next (raised e, w) = (complete_answered (raised e), w)

  abbrev pub last_phase : Outcome CompleteUploadResponse × World St Q → CompletePhase × World St Q
  last_phase (o, w) = (complete_answered o, w)

  -- The tests of the state, and the count of the uploaded chunks.
  unfoldable pub check_state : Upload → World St Q → CompletePhase
  check_state upload w =
      if is_initiated upload.status
      then complete_answered (raised still_initiated)
      else if not (is_in_progress upload.status)
      then complete_answered (raised wrong_state)
      else if count (uploaded_of upload.id) w.db.chunks == upload.total_chunks
      then counted upload
      else complete_answered (raised missing_error)

  -- The file is checked, and a multipart upload is put together.
  unfoldable pub assemble : Service St Q → Upload → List Chunk → Exec (World St Q) Unit
  assemble v upload chunks = do
    check_file v upload.file_checksum_sha256 chunks
    finish_multipart v upload chunks

  unfoldable pub advance_complete :
      Service St Q → Text → Option Text → CompletePhase → World St Q → CompletePhase × World St Q
  advance_complete v id key (loaded upload) w =
      if is_completed upload.status
      then last_phase (
          complete_again upload (fingerprint v ((codes "upload_id", str id) ∷ [])) key
            (open_session w))
      else (check_state upload w, w)
  advance_complete v id key (counted upload) w = (listed upload (chunks_of upload.id w.db), w)
  advance_complete v id key (listed upload chunks) w =
      next_phase (assembled upload) (assemble v upload chunks w)
  advance_complete v id key (assembled upload) w =
      last_phase
        (mark_upload upload (fingerprint v ((codes "upload_id", str id) ∷ [])) key (open_session w))
  advance_complete v id key (complete_answered o) w = (complete_answered o, w)
