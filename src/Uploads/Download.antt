-- ===== src/Uploads/Download.antt =====
-- `missing_chunks` and `download` of app/main.py.
pub mod Order
pub mod Frame
pub mod Missing
pub mod Content
use distributed_file_service.Prelude.{
  List, Option, [], any, if◌then◌else◌, length, map, none, not, select, some, suc, zero, ℕ, ◌+◌,
  ◌-◌, ◌==◌, ◌∷◌,
}
use distributed_file_service.Text.{Bytes, Text, truthy}
use distributed_file_service.Exec.{
  Error, Exec, Outcome, gets, http_error, modify, ok, pure, raise, raise_if, raised, ◌>>=◌, ◌>>◌,
}
use distributed_file_service.Models.{Chunk, Upload, UploadStatus, is_completed, uploaded_of}
use distributed_file_service.Range.{parse_range}
use distributed_file_service.Stream.{Streamed, stream_bytes_for_range}
use distributed_file_service.World.{AuthUser, Service, World, audit_event}
use distributed_file_service.Uploads.Access.{get_owned_upload}
use distributed_file_service.Uploads.Complete.{chunks_of}

pub record MissingChunksResponse : Type 0 where
  pub upload_id : Text
  pub missing_chunk_indexes : List ℕ
  pub status : UploadStatus

-- `[idx for idx in range(first, first + n) if idx not in uploaded_indexes]`.
unfoldable pub missing_from : ℕ → ℕ → List Chunk → List ℕ
missing_from first zero chunks = []
missing_from first (suc n) chunks =
    let rest = missing_from (first + 1) n chunks in
    if any (λ c. c.chunk_index == first) chunks then rest else first ∷ rest

-- A response of `download`: the headers that depend on the request, and the streamed body.
pub record DownloadResponse : Type 0 where
  pub status_code : ℕ
  pub content_range : Option (ℕ × ℕ × ℕ)
  pub file_name : Text
  pub body : Streamed

abbrev pub not_completed : Error
not_completed = http_error 409 "upload is not completed"

abbrev pub inconsistent : Error
inconsistent = http_error 500 "upload metadata is inconsistent"

-- `file_name.replace('"', "")`.
unfoldable pub without_quotes : Text → Text
without_quotes [] = []
without_quotes (c ∷ s) = let rest = without_quotes s in if c == b'"' then rest else c ∷ rest

abbrev pub keys_of : List Chunk → List Text
keys_of = map (λ c. c.s3_key)

module _ {St Q : Type 0} where
  unfoldable pub missing_chunks : Text → AuthUser → Exec (World St Q) MissingChunksResponse
  missing_chunks upload_id user = do
    upload ← get_owned_upload upload_id user
    rows ← gets (λ w. select (uploaded_of upload_id) w.session.chunks)
    pure (record {
      upload_id = upload_id;
      missing_chunk_indexes = missing_from 0 upload.total_chunks rows;
      status = upload.status;
    })

  -- The generator reads the store after the response has begun; here, as it is then.
  abbrev pub reader : Service St Q → World St Q → Text → Outcome Bytes
  reader v w key = (v.storage.read_chunk key w.store).0

  abbrev pub stream_chunks : Service St Q → World St Q → List Chunk → ℕ → ℕ → Streamed
  stream_chunks v w chunks start end =
      stream_bytes_for_range (reader v w) (keys_of chunks) start end

  unfoldable pub whole_response :
      Service St Q → Upload → List Chunk → Exec (World St Q) DownloadResponse
  whole_response v upload chunks = gets (λ w. record {
    status_code = 200;
    content_range = none;
    file_name = without_quotes upload.file_name;
    body = stream_chunks v w chunks 0 (upload.file_size - 1);
  })

  unfoldable pub range_response :
      Service St Q → Upload → List Chunk → Outcome (ℕ × ℕ) → Exec (World St Q) DownloadResponse
  range_response v upload chunks (raised e) = raise e
  range_response v upload chunks (ok (start, end)) = gets (λ w. record {
    status_code = 206;
    content_range = some (start, end, upload.file_size);
    file_name = without_quotes upload.file_name;
    body = stream_chunks v w chunks start end;
  })

  -- `if range: ...`, and the whole file otherwise.
  unfoldable pub respond :
      Service St Q → Upload → List Chunk → Option Text → Exec (World St Q) DownloadResponse
  respond v upload chunks none = whole_response v upload chunks
  respond v upload chunks (some []) = whole_response v upload chunks
  respond v upload chunks (some (c ∷ range)) =
      range_response v upload chunks (parse_range (c ∷ range) upload.file_size)

  abbrev pub audit_download : Upload → AuthUser → Option Text → World St Q → World St Q
  audit_download upload user range = audit_event (record {
    action = "download";
    upload_id = upload.id;
    user_id = user.user_id;
    status = upload.status;
    flag = truthy range;
  })

  unfoldable pub download :
      Service St Q → Text → Option Text → AuthUser → Exec (World St Q) DownloadResponse
  download v upload_id range user = do
    upload ← get_owned_upload upload_id user
    raise_if (not (is_completed upload.status)) not_completed
    chunks ← gets (λ w. chunks_of upload_id w.session)
    raise_if (not (length chunks == upload.total_chunks)) inconsistent
    modify (audit_download upload user range)
    respond v upload chunks range
