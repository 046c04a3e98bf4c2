-- ===== src/Uploads/Contents/Rows.antt =====
-- Laws of rows under the changes that a request on a chunk makes.
use distributed_file_service.Prelude.{
  Bool, Bool-cases, List, Option-cases, [], arith, false, find, inl, inr, refl, some, true, update,
  ℕ, ◌∷◌, ◌≡◌,
}
use distributed_file_service.Text.{Text, text_eq_iff}
use distributed_file_service.Models.Columns.{rewritten}
use distributed_file_service.Models.{Chunk, is_chunk}
use distributed_file_service.Models.Rows.{find-append}
use distributed_file_service.Uploads.ChunkUpload.{put_chunk}
use distributed_file_service.Uploads.ChunkUpload.Acknowledged.{find-update_taken, is_chunk-own}
use distributed_file_service.Uploads.Sound.Rows.{put_chunk-new, put_chunk-old}

module _ {A : Type 0} where
  -- Rows that a change does not touch, and does not make.
  pub find-update_other :
      (p q : A → Bool) (f : A → A) (xs : List A)
      → ((x : A) → q x ≡ true → (p (f x) ≡ false) × (p x ≡ false))
      → find p (update q f xs) ≡ find p xs
  unfolding find update
  find-update_other p q f [] h = refl
  find-update_other p q f (x ∷ xs) h = elim (Bool-cases (q x)) [
    | inl e ↦ rw (e, (h x e).0, (h x e).1, find-update_other p q f xs h) refl
    | inr e ↦ rw (e, find-update_other p q f xs h) refl
  ]

-- The row under another upload or index.
pub find-put_chunk_other :
    (c : Chunk) (cs : List Chunk) (id : Text) (index : ℕ)
    → is_chunk id index c ≡ false
    → find (is_chunk id index) (put_chunk c cs) ≡ find (is_chunk id index) cs
unfolding is_chunk find
find-put_chunk_other c cs id index h =
    elim (Option-cases (find (is_chunk c.upload_id c.chunk_index) cs)) [
      | inl e ↦
          rw (put_chunk-new c cs e, find-append)
            (elim (Option-cases (find (is_chunk id index) cs)) [
              | inl n ↦ rw (n, h) refl
              | inr (x, n) ↦ rw n refl
            ])
      | inr (x, e) ↦ rw (put_chunk-old c cs x e) (
          find-update_other (is_chunk id index) (is_chunk c.upload_id c.chunk_index) (rewritten c)
            cs (λ y q. (unfold rewritten in h, other y q)))
    ]
  where
    other : (y : Chunk) → is_chunk c.upload_id c.chunk_index y ≡ true → is_chunk id index y ≡ false
    other y q = ground (
      arith,
      text_eq_iff y.upload_id c.upload_id,
      text_eq_iff y.upload_id id,
      text_eq_iff c.upload_id id,
    )

-- The row that was put.
pub find-put_chunk :
    (c : Chunk) (cs : List Chunk)
    → (t : ℕ) × (s : ℕ) × (find (is_chunk c.upload_id c.chunk_index) (put_chunk c cs)
        ≡ some (record c { created_at = t; updated_at = s }))
unfolding find rewritten
find-put_chunk c cs = elim (Option-cases (find (is_chunk c.upload_id c.chunk_index) cs)) [
  | inl e ↦
      (c.created_at, c.updated_at, rw (put_chunk-new c cs e, find-append, e, is_chunk-own c) refl)
  | inr (x, e) ↦
      let (y, q) =
        find-update_taken (is_chunk c.upload_id c.chunk_index) (rewritten c) cs x
          (λ y. is_chunk-own (rewritten c y)) e in
      ((rewritten c y).created_at, (rewritten c y).updated_at, rw (put_chunk-old c cs x e) q)
]
