-- ===== src/Storage.antt =====
-- app/storage.py: the interface of a chunk store and the keys of its objects. `St` is the state
-- behind a store: a directory, or a bucket.
pub mod Keys
pub mod Local
pub mod S3
use distributed_file_service.Prelude.{List, Option, ℕ, ◌++◌, ◌∷◌}
use distributed_file_service.Text.{Bytes, Text, codes}
use distributed_file_service.Text.Decimal.{decimal}
use distributed_file_service.Exec.{Exec}

pub record StorageWriteResult : Type 0 where
  pub key : Text
  pub etag : Option Text

-- `{"PartNumber": ..., "ETag": ...}`.
pub record Part : Type 0 where
  pub part_number : ℕ
  pub etag : Text

pub record ChunkStorage (St : Type 0) : Type 0 where
  pub initialize_upload : Text → Exec St (Option Text)
  pub write_chunk : Text → ℕ → Bytes → Option Text → Exec St StorageWriteResult
  pub complete_upload : Text → Option Text → List Part → Exec St Unit
  pub read_chunk : Text → Exec St Bytes
  pub list_keys : Text → Exec St (List Text)
  pub delete_key : Text → Exec St Unit

-- `f"uploads/{upload_id}/chunk_{chunk_index}"`.
unfoldable pub chunk_key : Text → ℕ → Text
unfolding decimal
chunk_key upload_id index =
    codes "uploads/" ++ (upload_id ++ (codes "/chunk" ++ b'_' ∷ decimal index))

-- `f"uploads/{upload_id}/assembled"`.
unfoldable pub assembled_key : Text → Text
assembled_key upload_id = codes "uploads/" ++ (upload_id ++ codes "/assembled")
