-- ===== src/Maintenance.antt =====
-- app/maintenance.py: `cleanup_once`. Whether the database enforces `ON DELETE CASCADE` is an
-- argument: PostgreSQL does, SQLite does not unless it is told to.
pub mod Effect
pub mod Completed
pub mod Sound
pub mod Kept
use distributed_file_service.Prelude.{
  Bool, List, [], any, count, false, if◌then◌else◌, length, ltb, map, not, select, true, ℕ, ◌&&◌,
  ◌++◌, ◌+◌, ◌||◌, ◌∷◌,
}
use distributed_file_service.Text.{Text, codes, text_eq}
use distributed_file_service.Exec.{Exec, gets, modify, pure, try_except, ◌>>=◌, ◌>>◌}
use distributed_file_service.Config.{Settings, is_s3_compatible}
use distributed_file_service.Models.{Chunk, Db, Upload, is_in_progress, is_initiated, of_upload}
use distributed_file_service.Storage.{assembled_key}
use distributed_file_service.World.{Service, World, commit, in_session, in_store}

pub record CleanupReport : Type 0 where
  pub stale_uploads_deleted : ℕ
  pub idempotency_rows_deleted : ℕ
  pub storage_keys_deleted : ℕ

-- `status in (INITIATED, IN_PROGRESS)` and `created_at < now - ttl`.
unfoldable pub is_stale : Settings → ℕ → Upload → Bool
is_stale c now u =
    (is_initiated u.status || is_in_progress u.status)
    && ltb (u.created_at + c.stale_upload_ttl_seconds) now

-- `created_at < now - ttl` of an idempotency row.
abbrev pub is_expired : Settings → ℕ → ℕ → Bool
is_expired c now created_at = ltb (created_at + c.idempotency_ttl_seconds) now

unfoldable pub is_one_of : List Text → Text → Bool
unfolding text_eq
is_one_of ids id = any (λ i. text_eq i id) ids

-- `delete(Upload).where(Upload.id.in_(ids))`, with the rows that refer to them when the database
-- enforces that.
unfoldable pub delete_uploads : Bool → List Text → Db → Db
unfolding is_one_of select
delete_uploads false ids db = record db {
  uploads = select (λ u. not (is_one_of ids u.id)) db.uploads;
}
delete_uploads true ids db = record {
  uploads = select (λ u. not (is_one_of ids u.id)) db.uploads;
  chunks = select (λ c. not (is_one_of ids c.upload_id)) db.chunks;
  init_requests = select (λ r. not (is_one_of ids r.upload_id)) db.init_requests;
  chunk_requests = select (λ r. not (is_one_of ids r.upload_id)) db.chunk_requests;
  complete_requests = select (λ r. not (is_one_of ids r.upload_id)) db.complete_requests;
}

-- The three deletes of expired idempotency rows.
unfoldable pub delete_expired : Settings → ℕ → Db → Db
unfolding select
delete_expired c now db = record db {
  init_requests = select (λ r. not (is_expired c now r.created_at)) db.init_requests;
  chunk_requests = select (λ r. not (is_expired c now r.created_at)) db.chunk_requests;
  complete_requests = select (λ r. not (is_expired c now r.created_at)) db.complete_requests;
}

unfoldable pub count_expired : Settings → ℕ → Db → ℕ
unfolding count
count_expired c now db =
    count (λ r. is_expired c now r.created_at) db.init_requests
    + count (λ r. is_expired c now r.created_at) db.chunk_requests
    + count (λ r. is_expired c now r.created_at) db.complete_requests

abbrev pub ids_of : List Upload → List Text
ids_of = map (λ u. u.id)

-- The keys that some row refers to.
unfoldable pub referenced_keys : Settings → Db → List Text
referenced_keys c db =
    let keys = map (λ (k : Chunk). k.s3_key) db.chunks in
    if is_s3_compatible c then keys ++ map (λ (u : Upload). assembled_key u.id) db.uploads else keys

-- The objects of the stale uploads.
unfoldable pub stale_keys : Settings → Db → List Upload → List Text
stale_keys c db [] = []
stale_keys c db (u ∷ us) =
    map (λ (k : Chunk). k.s3_key) (select (of_upload u.id) db.chunks)
    ++ ((if is_s3_compatible c then assembled_key u.id ∷ [] else []) ++ stale_keys c db us)

-- `if key not in referenced_keys`.
unfoldable pub orphans : List Text → List Text → List Text
orphans referenced keys = select (λ k. not (is_one_of referenced k)) keys

module _ {St Q : Type 0} where
  -- One delete, whose exception is dropped: 1 if it went through.
  unfoldable pub delete_one : Service St Q → Text → Exec (World St Q) ℕ
  delete_one v key = try_except (do in_store (v.storage.delete_key key); pure 1) (λ _. pure 0)

  unfoldable pub delete_all : Service St Q → List Text → Exec (World St Q) ℕ
  delete_all v [] = pure 0
  delete_all v (key ∷ keys) = do n ← delete_one v key; m ← delete_all v keys; pure (n + m)

  -- An exception of the listing ends the sweep.
  unfoldable pub sweep : Service St Q → List Text → Exec (World St Q) ℕ
  sweep v referenced =
      try_except
        (do
          keys ← in_store (v.storage.list_keys (codes "uploads/"))
          delete_all v (orphans referenced keys))
        (λ _. pure 0)

  unfoldable pub cleanup_once : Service St Q → Bool → Exec (World St Q) CleanupReport
  cleanup_once v cascades = do
    now ← gets (λ w. w.now)
    stale ← gets (λ w. select (is_stale v.config now) w.session.uploads)
    keys ← gets (λ w. stale_keys v.config w.session stale)
    deleted ← delete_all v keys
    modify (in_session (delete_uploads cascades (ids_of stale)))
    expired ← gets (λ w. count_expired v.config now w.session)
    modify (in_session (delete_expired v.config now))
    referenced ← gets (λ w. referenced_keys v.config w.session)
    swept ← sweep v referenced
    commit
    pure (record {
      stale_uploads_deleted = length stale;
      idempotency_rows_deleted = expired;
      storage_keys_deleted = deleted + swept;
    })
