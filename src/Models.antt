-- ===== src/Models.antt =====
-- app/models.py: the tables, their unique constraints, and the queries that the code makes. Times
-- are seconds. The tables are lists of rows in the order of insertion.
pub mod Rows
pub mod Columns
use distributed_file_service.Prelude.{
  Bool, List, Option, [], any, distinct, false, if◌then◌else◌, leb, true, ℕ, ◌&&◌, ◌==◌, ◌||◌, ◌∷◌,
}
use distributed_file_service.Text.{Text, text_eq}

pub data UploadStatus : Type 0 where
  initiated in_progress completed failed aborted : UploadStatus

pub data ChunkStatus : Type 0 where
  pending uploaded chunk_failed : ChunkStatus

abbrev pub is_initiated : UploadStatus → Bool
is_initiated initiated = true
is_initiated _ = false

abbrev pub is_in_progress : UploadStatus → Bool
is_in_progress in_progress = true
is_in_progress _ = false

abbrev pub is_completed : UploadStatus → Bool
is_completed completed = true
is_completed _ = false

abbrev pub is_uploaded : ChunkStatus → Bool
is_uploaded uploaded = true
is_uploaded _ = false

pub record Upload : Type 0 where
  pub id : Text
  pub owner_id : Text
  pub file_name : Text
  pub file_size : ℕ
  pub chunk_size : ℕ
  pub total_chunks : ℕ
  pub file_checksum_sha256 : Option Text
  pub status : UploadStatus
  pub multipart_upload_id : Option Text
  pub created_at : ℕ
  pub updated_at : ℕ

pub record Chunk : Type 0 where
  pub upload_id : Text
  pub chunk_index : ℕ
  pub size_bytes : ℕ
  pub chunk_checksum_sha256 : Option Text
  pub s3_key : Text
  pub s3_etag : Option Text
  pub status : ChunkStatus
  pub retry_count : ℕ
  pub created_at : ℕ
  pub updated_at : ℕ

pub record InitRequestIdempotency : Type 0 where
  pub idempotency_key : Text
  pub upload_id : Text
  pub request_fingerprint : Text
  pub created_at : ℕ

pub record ChunkRequestIdempotency : Type 0 where
  pub upload_id : Text
  pub chunk_index : ℕ
  pub idempotency_key : Text
  pub request_fingerprint : Text
  pub created_at : ℕ

pub record CompleteRequestIdempotency : Type 0 where
  pub idempotency_key : Text
  pub upload_id : Text
  pub request_fingerprint : Text
  pub created_at : ℕ

pub record Db : Type 0 where
  pub uploads : List Upload
  pub chunks : List Chunk
  pub init_requests : List InitRequestIdempotency
  pub chunk_requests : List ChunkRequestIdempotency
  pub complete_requests : List CompleteRequestIdempotency

abbrev pub empty_db : Db
empty_db = record {
  uploads = [];
  chunks = [];
  init_requests = [];
  chunk_requests = [];
  complete_requests = [];
}

-- `where(Chunk.upload_id == upload_id)`.
unfoldable pub of_upload : Text → Chunk → Bool
of_upload upload_id c = text_eq c.upload_id upload_id

-- `where(Chunk.upload_id == upload_id, Chunk.chunk_index == chunk_index)`.
unfoldable pub is_chunk : Text → ℕ → Chunk → Bool
is_chunk upload_id index c = text_eq c.upload_id upload_id && c.chunk_index == index

-- `where(Chunk.upload_id == upload_id, Chunk.status == ChunkStatus.uploaded.value)`.
unfoldable pub uploaded_of : Text → Chunk → Bool
uploaded_of upload_id c = text_eq c.upload_id upload_id && is_uploaded c.status

unfoldable pub is_chunk_request : Text → ℕ → Text → ChunkRequestIdempotency → Bool
is_chunk_request upload_id index key r =
    text_eq r.upload_id upload_id && (r.chunk_index == index && text_eq r.idempotency_key key)

abbrev pub has_id : Text → Upload → Bool
has_id upload_id u = text_eq u.id upload_id

-- `order_by(Chunk.chunk_index)`.
unfoldable pub insert_chunk : Chunk → List Chunk → List Chunk
insert_chunk c [] = c ∷ []
insert_chunk c (d ∷ ds) =
    let rest = insert_chunk c ds in if leb c.chunk_index d.chunk_index then c ∷ d ∷ ds else d ∷ rest

unfoldable pub order_by_index : List Chunk → List Chunk
unfolding insert_chunk
order_by_index [] = []
order_by_index (c ∷ cs) = insert_chunk c (order_by_index cs)

-- What a flush checks: the primary keys and the unique constraints.
unfoldable pub constraints_hold : Db → Bool
unfolding distinct any
constraints_hold db =
    distinct (λ a b. text_eq a.id b.id) db.uploads
    && (distinct (λ a b. text_eq a.upload_id b.upload_id && a.chunk_index == b.chunk_index)
          db.chunks
        && (distinct
              (λ a b.
                text_eq a.idempotency_key b.idempotency_key || text_eq a.upload_id b.upload_id)
              db.init_requests
            && (distinct
                  (λ a b.
                    text_eq a.upload_id b.upload_id
                    && (a.chunk_index == b.chunk_index
                        && text_eq a.idempotency_key b.idempotency_key))
                  db.chunk_requests
                && distinct (λ a b. text_eq a.idempotency_key b.idempotency_key)
                    db.complete_requests)))
