-- ===== src/Uploads/Sound/Rows.antt =====
-- Laws of the table of chunks that the invariant needs.
use distributed_file_service.Prelude.{
  All, Bool, Bool-cases, List, Option-cases, [], arith, count, false, find, inl, inr, none, refl,
  some, true, update, ℕ, ◌++◌, ◌∷◌, ◌≡◌,
}
use distributed_file_service.Text.{Text, text_eq, text_eq_iff}
use distributed_file_service.Models.Columns.{rewritten}
use distributed_file_service.Models.{Chunk, is_chunk, of_upload, uploaded_of}
use distributed_file_service.Models.Rows.{All-append, count-append}
use distributed_file_service.Uploads.ChunkUpload.{put_chunk}
use distributed_file_service.Uploads.Sound.{Fits}

-- The selected rows are changed to rows that `p` does not take, and were not taken before.
pub count-update_other :
    {A : Type 0} (p q : A → Bool) (f : A → A) (xs : List A)
    → ((x : A) → q x ≡ true → (p (f x) ≡ false) × (p x ≡ false))
    → count p (update q f xs) ≡ count p xs
unfolding count update
count-update_other p q f [] h = refl
count-update_other p q f (x ∷ xs) h = elim (Bool-cases (q x)) [
  | inl e ↦ rw (e, (h x e).0, (h x e).1, count-update_other p q f xs h)
  | inr e ↦ rw (e, count-update_other p q f xs h)
]

pub is_chunk_other :
    (c x : Chunk) (id : Text)
    → is_chunk c.upload_id c.chunk_index x ≡ true
    → text_eq c.upload_id id ≡ false
    → text_eq x.upload_id id ≡ false
unfolding is_chunk
is_chunk_other c x id h k = ground (
  arith,
  text_eq_iff x.upload_id c.upload_id,
  text_eq_iff x.upload_id id,
  text_eq_iff c.upload_id id,
)

pub put_chunk-new :
    (c : Chunk) (cs : List Chunk)
    → find (is_chunk c.upload_id c.chunk_index) cs ≡ none
    → put_chunk c cs ≡ cs ++ c ∷ []
unfolding put_chunk
put_chunk-new c cs e = rw (e, put_chunk)

pub put_chunk-old :
    (c : Chunk) (cs : List Chunk) (x : Chunk)
    → find (is_chunk c.upload_id c.chunk_index) cs ≡ some x
    → put_chunk c cs ≡ update (is_chunk c.upload_id c.chunk_index) (rewritten c) cs
unfolding put_chunk
put_chunk-old c cs x e = rw (e, put_chunk)

-- The rows of other uploads are counted as before, by any test that sees the upload.
pub count-put_chunk :
    (p : Chunk → Bool) (c : Chunk) (id : Text) (cs : List Chunk)
    → ((x : Chunk) → text_eq x.upload_id id ≡ false → p x ≡ false)
    → text_eq c.upload_id id ≡ false
    → count p (put_chunk c cs) ≡ count p cs
count-put_chunk p c id cs h k = elim (Option-cases (find (is_chunk c.upload_id c.chunk_index) cs)) [
  | inl e ↦ rw (put_chunk-new c cs e, count-append) (unfold count in rw (h c k) (omega arith))
  | inr (x, e) ↦ rw (put_chunk-old c cs x e) (
      count-update_other p (is_chunk c.upload_id c.chunk_index) (rewritten c) cs
        (λ x q. (h (rewritten c x) (unfold rewritten in k), h x (is_chunk_other c x id q k))))
]

pub All-update :
    {A : Type 0} (P : A → Type 0) (q : A → Bool) (f : A → A) (xs : List A)
    → ((x : A) → P (f x))
    → All P xs
    → All P (update q f xs)
unfolding update
All-update P q f [] h a = tt
All-update P q f (x ∷ xs) h a = elim (Bool-cases (q x)) [
  | inl e ↦ rw e (h x, All-update P q f xs h a.1)
  | inr e ↦ rw e (a.0, All-update P q f xs h a.1)
]

-- A statement on rows that does not read the times.
pub All-put_chunk :
    (P : Chunk → Type 0) (c : Chunk) (cs : List Chunk)
    → ((t s : ℕ) → P (record c { created_at = t; updated_at = s }))
    → All P cs
    → All P (put_chunk c cs)
All-put_chunk P c cs h a = elim (Option-cases (find (is_chunk c.upload_id c.chunk_index) cs)) [
  | inl e ↦ rw (put_chunk-new c cs e) (All-append P cs (c ∷ []) a (h c.created_at c.updated_at, tt))
  | inr (x, e) ↦
      rw (put_chunk-old c cs x e)
        (All-update P _ (rewritten c) cs (λ x. unfold rewritten in h _ _) a)
]

-- An upload with no rows.
pub count-none-Fits :
    (id : Text) (n : ℕ) (cs : List Chunk) → count (of_upload id) cs ≡ 0 → All (Fits id n) cs
unfolding count of_upload
count-none-Fits id n [] h = tt
count-none-Fits id n (c ∷ cs) h = elim (Bool-cases (text_eq c.upload_id id)) [
  | inl e ↦ absurd (ground (arith, e))
  | inr e ↦ (
    record { fits = λ q. ground (arith, text_eq_iff c.upload_id id) },
    count-none-Fits id n cs (ground arith),
  )
]

-- All rows of the upload are of uploaded chunks, so the two counts agree.
pub count-Fits :
    (id : Text) (n : ℕ) (cs : List Chunk)
    → All (Fits id n) cs
    → count (uploaded_of id) cs ≡ count (of_upload id) cs
unfolding count of_upload uploaded_of
count-Fits id n [] h = refl
count-Fits id n (c ∷ cs) h =
    ground (arith, count-Fits id n cs h.1, h.0.fits, text_eq_iff c.upload_id id)
