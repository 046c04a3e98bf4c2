-- ===== src/Uploads/Sound.antt =====
-- What holds of the tables after every request: the rows of chunks fit the uploads they belong to.
pub mod Rows
pub mod Changes
pub mod Steps
use distributed_file_service.Prelude.{
  All, Bool, count, distinct, find, none, some, true, ℕ, ◌&&◌, ◌<◌, ◌==◌, ◌≡◌,
}
use distributed_file_service.Text.{Text, text_eq}
use distributed_file_service.Models.{
  Chunk, Db, Upload, completed, has_id, initiated, is_uploaded, of_upload, uploaded_of,
}

abbrev pub same_chunk : Chunk → Chunk → Bool
same_chunk a b = text_eq a.upload_id b.upload_id && a.chunk_index == b.chunk_index

-- A row of this upload is of an uploaded chunk, with an index in the upload.
pub record Fits (id : Text) (total : ℕ) (c : Chunk) : Type 0 where
  pub fits : c.upload_id ≡ id → (is_uploaded c.status ≡ true) × (c.chunk_index < total)

pub record IsSound (db : Db) : Type 0 where
  pub complete :
      (id : Text) (u : Upload)
      → find (has_id id) db.uploads ≡ some u
      → u.status ≡ completed
      → count (uploaded_of id) db.chunks ≡ u.total_chunks
  pub rows :
      (id : Text) (u : Upload)
      → find (has_id id) db.uploads ≡ some u
      → All (Fits id u.total_chunks) db.chunks
  pub no_orphan :
      (id : Text) → find (has_id id) db.uploads ≡ none → count (of_upload id) db.chunks ≡ 0
  pub initial :
      (id : Text) (u : Upload)
      → find (has_id id) db.uploads ≡ some u
      → u.status ≡ initiated
      → count (of_upload id) db.chunks ≡ 0
  pub unique_chunks : distinct same_chunk db.chunks ≡ true
