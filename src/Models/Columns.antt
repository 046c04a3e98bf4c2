-- ===== src/Models/Columns.antt =====
-- What the ORM writes of a changed row of `Chunk` (app/models.py): the columns that the code has set
-- to another value than the loaded row's, and `updated_at` (`onupdate`) when there is one.
use distributed_file_service.Prelude.{
  Bool, Bool-cases, Option, ap, arith, false, if◌then◌else◌, inl, inr, none, refl, some, true, ℕ,
  ◌&&◌, ◌==◌, ◌≡◌,
}
use distributed_file_service.Text.{Text, text_eq, text_eq_iff}
use distributed_file_service.Models.{
  Chunk, ChunkStatus, chunk_failed, is_uploaded, pending, uploaded,
}

unfoldable same_text : Option Text → Option Text → Bool
same_text none none = true
same_text (some s) (some t) = text_eq s t
same_text _ _ = false

unfoldable same_status : ChunkStatus → ChunkStatus → Bool
same_status pending pending = true
same_status uploaded uploaded = true
same_status chunk_failed chunk_failed = true
same_status _ _ = false

-- None of the columns that are set has changed.
unfoldable pub same_columns : Chunk → Chunk → Bool
unfolding same_text same_status
same_columns a b =
    a.size_bytes == b.size_bytes
    && (same_text a.chunk_checksum_sha256 b.chunk_checksum_sha256
        && (text_eq a.s3_key b.s3_key
            && (same_text a.s3_etag b.s3_etag
                && (same_status a.status b.status && a.retry_count == b.retry_count))))

-- The row that was loaded is the row that is there.
unfoldable pub rewritten : Chunk → Chunk → Chunk
unfolding same_columns
rewritten c old = record c {
  created_at = old.created_at;
  updated_at = if same_columns old c then old.updated_at else c.updated_at;
}

-- The row that is there may not be the one that was loaded.
unfoldable pub set_columns : Chunk → Chunk → Chunk → Chunk
unfolding same_columns same_text same_status
set_columns loaded c old = record c {
  size_bytes = if loaded.size_bytes == c.size_bytes then old.size_bytes else c.size_bytes;
  chunk_checksum_sha256 =
      if same_text loaded.chunk_checksum_sha256 c.chunk_checksum_sha256
      then old.chunk_checksum_sha256
      else c.chunk_checksum_sha256;
  s3_key = if text_eq loaded.s3_key c.s3_key then old.s3_key else c.s3_key;
  s3_etag = if same_text loaded.s3_etag c.s3_etag then old.s3_etag else c.s3_etag;
  status = if same_status loaded.status c.status then old.status else c.status;
  retry_count = if loaded.retry_count == c.retry_count then old.retry_count else c.retry_count;
  created_at = old.created_at;
  updated_at = if same_columns loaded c then old.updated_at else c.updated_at;
}

pub set_columns-uploaded :
    (loaded c old : Chunk)
    → is_uploaded c.status ≡ true
    → is_uploaded old.status ≡ true
    → is_uploaded (set_columns loaded c old).status ≡ true
unfolding set_columns
set_columns-uploaded loaded c old new was = elim (Bool-cases (same_status loaded.status c.status)) [
  | inl e ↦ rw e was
  | inr e ↦ rw e new
]

same_text-own : (s t : Option Text) → (if same_text s t then s else t) ≡ t
unfolding same_text
same_text-own none none = refl
same_text-own (some s) none = refl
same_text-own none (some t) = refl
same_text-own (some s) (some t) = elim (Bool-cases (text_eq s t)) [
  | inl e ↦ rw e (ap some ((text_eq_iff s t).0 e))
  | inr e ↦ rw e refl
]

text_eq-own : (s t : Text) → (if text_eq s t then s else t) ≡ t
text_eq-own s t = elim (Bool-cases (text_eq s t)) [
  | inl e ↦ rw e ((text_eq_iff s t).0 e)
  | inr e ↦ rw e refl
]

same_status-own : (s t : ChunkStatus) → (if same_status s t then s else t) ≡ t
unfolding same_status
same_status-own pending pending = refl
same_status-own pending uploaded = refl
same_status-own pending chunk_failed = refl
same_status-own uploaded pending = refl
same_status-own uploaded uploaded = refl
same_status-own uploaded chunk_failed = refl
same_status-own chunk_failed pending = refl
same_status-own chunk_failed uploaded = refl
same_status-own chunk_failed chunk_failed = refl

number-own : (m n : ℕ) → (if m == n then m else n) ≡ n
number-own m n = ground arith

-- When the row that was loaded is still there.
pub set_columns-own : (c old : Chunk) → set_columns old c old ≡ rewritten c old
unfolding set_columns rewritten
set_columns-own c old = rw (
  number-own old.size_bytes c.size_bytes,
  same_text-own old.chunk_checksum_sha256 c.chunk_checksum_sha256,
  text_eq-own old.s3_key c.s3_key,
  same_text-own old.s3_etag c.s3_etag,
  same_status-own old.status c.status,
  number-own old.retry_count c.retry_count,
)
