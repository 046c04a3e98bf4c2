-- ===== src/Uploads/Interleaved/Alone/Records.antt =====
-- The rows that a request on a chunk writes, alone and with the row that it has loaded.
use distributed_file_service.Uploads.Sound.Rows.{put_chunk-new, put_chunk-old}
use distributed_file_service.Models.Columns.{rewritten, set_columns, set_columns-own}
use distributed_file_service.Uploads.ChunkUpload.{
  new_chunk, record_chunk, start_progress, put_chunk,
}
use distributed_file_service.Prelude.{
  Bool-cases, List, Option, [], any, arith, distinct, false, find, inl, inr, refl, some, true,
  update, ℕ, ◌∷◌, ◌≡◌, Option-cases, ◌&&◌, ◌==◌,
}
use distributed_file_service.Text.{Text, text_eq, text_eq_iff}
use distributed_file_service.Models.{Db, Upload, constraints_hold, has_id, is_chunk, Chunk}
use distributed_file_service.Uploads.Persist.{ChunkWrite, Stored}
use distributed_file_service.Uploads.Interleaved.Chunks.{
  commit_chunk, start_loaded, write_chunk_row,
}

update-none_of :
    (id : Text) (f : Upload → Upload) (us : List Upload)
    → any (has_id id) us ≡ false
    → update (has_id id) f us ≡ us
unfolding update any
update-none_of id f [] h = refl
update-none_of id f (u ∷ us) h = rw (update-none_of id f us (ground (arith, h))) (ground (arith, h))

any-has_id :
    (u : Upload) (id : Text) (us : List Upload)
    → u.id ≡ id
    → any (λ b. text_eq u.id b.id) us ≡ false
    → any (has_id id) us ≡ false
unfolding any
any-has_id u id [] e h = refl
any-has_id u id (x ∷ us) e h =
    ground (arith, any-has_id u id us e, h, text_eq_iff u.id x.id, text_eq_iff x.id id, e)

-- The one row of an id is the loaded one.
update-start :
    (id : Text) (now : ℕ) (u : Upload) (us : List Upload)
    → distinct (λ a b. text_eq a.id b.id) us ≡ true
    → find (has_id id) us ≡ some u
    → update (has_id id) (start_progress now) us ≡ update (has_id id) (start_loaded u now) us
unfolding update distinct find
update-start id now u [] d h = refl
update-start id now u (x ∷ us) d h = elim (Bool-cases (has_id id x)) [
  | inl e ↦
      let same : x ≡ u = ground (arith, rw (e, find) at h) in
      let other : any (has_id id) us ≡ false =
        any-has_id x id us ((text_eq_iff x.id id).0 e) (ground (arith, d)) in
      rw (
        e,
        same,
        update-none_of id (start_progress now) us other,
        update-none_of id (start_loaded u now) us other,
      )
  | inr e ↦ rw (e, update-start id now u us (ground (arith, d)) (rw (e, find) at h))
]

update-none_chunk :
    (id : Text) (index : ℕ) (f : Chunk → Chunk) (cs : List Chunk)
    → any (is_chunk id index) cs ≡ false
    → update (is_chunk id index) f cs ≡ cs
unfolding update any
update-none_chunk id index f [] h = refl
update-none_chunk id index f (c ∷ cs) h =
    rw (update-none_chunk id index f cs (ground (arith, h))) (ground (arith, h))

any-is_chunk :
    (c : Chunk) (id : Text) (index : ℕ) (cs : List Chunk)
    → is_chunk id index c ≡ true
    → any (λ b. text_eq c.upload_id b.upload_id && c.chunk_index == b.chunk_index) cs ≡ false
    → any (is_chunk id index) cs ≡ false
unfolding any is_chunk
any-is_chunk c id index [] e h = refl
any-is_chunk c id index (x ∷ cs) e h = ground (
  arith,
  any-is_chunk c id index cs e,
  h,
  e,
  text_eq_iff c.upload_id id,
  text_eq_iff c.upload_id x.upload_id,
  text_eq_iff x.upload_id id,
)

-- The one row of a chunk is the loaded one.
update-rewritten :
    (c x : Chunk) (cs : List Chunk)
    → distinct (λ a b. text_eq a.upload_id b.upload_id && a.chunk_index == b.chunk_index) cs ≡ true
    → find (is_chunk c.upload_id c.chunk_index) cs ≡ some x
    → update (is_chunk c.upload_id c.chunk_index) (rewritten c) cs
      ≡ update (is_chunk c.upload_id c.chunk_index) (set_columns x c) cs
unfolding update distinct find
update-rewritten c x [] d h = refl
update-rewritten c x (y ∷ cs) d h = elim (Bool-cases (is_chunk c.upload_id c.chunk_index y)) [
  | inl e ↦
      let same : y ≡ x = ground (arith, rw (e, find) at h) in
      let other : any (is_chunk c.upload_id c.chunk_index) cs ≡ false =
        any-is_chunk y c.upload_id c.chunk_index cs e (ground (arith, d)) in
      rw (
        e,
        same,
        update-none_chunk c.upload_id c.chunk_index (rewritten c) cs other,
        update-none_chunk c.upload_id c.chunk_index (set_columns x c) cs other,
        set_columns-own c x,
      )
  | inr e ↦ rw (e, update-rewritten c x cs (ground (arith, d)) (rw (e, find) at h))
]

put_chunk-write :
    (c : Chunk) (cs : List Chunk)
    → distinct (λ a b. text_eq a.upload_id b.upload_id && a.chunk_index == b.chunk_index) cs ≡ true
    → put_chunk c cs ≡ write_chunk_row (find (is_chunk c.upload_id c.chunk_index) cs) c cs
unfolding write_chunk_row
put_chunk-write c cs d = elim (Option-cases (find (is_chunk c.upload_id c.chunk_index) cs)) [
  | inl e ↦ rw (put_chunk-new c cs e, e) refl
  | inr (x, e) ↦ rw (put_chunk-old c cs x e, e) (update-rewritten c x cs d e)
]

pub record_chunk-commit :
    (u : Upload) (c : ChunkWrite) (print : Text) (key : Option Text) (s : Stored) (n now : ℕ)
    (db : Db)
    → constraints_hold db ≡ true
    → find (has_id c.upload_id) db.uploads ≡ some u
    → record_chunk c print key s n now db
      ≡ commit_chunk u (find (is_chunk c.upload_id c.chunk_index) db.chunks) c print key s n now db
unfolding record_chunk commit_chunk constraints_hold
record_chunk-commit u c print key s n now db h found = rw (
  put_chunk-write (new_chunk c print s n now) db.chunks (ground (arith, h)),
  update-start c.upload_id now u db.uploads (ground (arith, h)) found,
)
