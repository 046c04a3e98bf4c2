-- ===== src/Uploads/Interleaved/Commits/Rows.antt =====
-- The rows of chunks after the commit of an interleaved request.
use distributed_file_service.Prelude.{
  none, Option, All, Bool, Bool-cases, List, [], arith, count, false, inl, inr, refl, some, true,
  update, ℕ, ◌∷◌, ◌≡◌, ◌≤◌,
}
use distributed_file_service.Text.{Text, text_eq, text_eq_iff}
use distributed_file_service.Models.Columns.{set_columns, set_columns-uploaded}
use distributed_file_service.Models.{Chunk, is_chunk, is_uploaded, uploaded_of}
use distributed_file_service.Models.Rows.{All-append, count-append}
use distributed_file_service.Uploads.Sound.{Fits}
use distributed_file_service.Uploads.Sound.Rows.{count-update_other, is_chunk_other}
use distributed_file_service.Uploads.Interleaved.Chunks.{write_chunk_row}

-- A changed row is an uploaded one of the same upload.
pub count-update_more :
    (id : Text) (c : Chunk) (f : Chunk → Chunk) (cs : List Chunk)
    → ((d : Chunk) → (f d).upload_id ≡ c.upload_id)
    → ((d : Chunk) → is_uploaded d.status ≡ true → is_uploaded (f d).status ≡ true)
    → count (uploaded_of id) cs
      ≤ count (uploaded_of id) (update (is_chunk c.upload_id c.chunk_index) f cs)
unfolding count update uploaded_of is_chunk
count-update_more id c f [] own up = omega arith
count-update_more id c f (d ∷ ds) own up = ground (
  arith,
  count-update_more id c f ds own up,
  own d,
  up d,
  text_eq_iff d.upload_id c.upload_id,
  text_eq_iff d.upload_id id,
  text_eq_iff c.upload_id id,
)

pub count-write_more :
    (id : Text) (existing : Option Chunk) (c : Chunk) (cs : List Chunk)
    → is_uploaded c.status ≡ true
    → count (uploaded_of id) cs ≤ count (uploaded_of id) (write_chunk_row existing c cs)
unfolding write_chunk_row
count-write_more id (some existing) c cs h =
    count-update_more id c (set_columns existing c) cs (λ d. unfold set_columns in refl)
      (λ d. set_columns-uploaded existing c d h)
count-write_more id none c cs h = omega (arith, count-append (uploaded_of id) cs (c ∷ []))

-- The rows of other uploads are counted as before.
pub count-write_other :
    (p : Chunk → Bool) (existing : Option Chunk) (c : Chunk) (id : Text) (cs : List Chunk)
    → ((x : Chunk) → text_eq x.upload_id id ≡ false → p x ≡ false)
    → text_eq c.upload_id id ≡ false
    → count p (write_chunk_row existing c cs) ≡ count p cs
unfolding write_chunk_row
count-write_other p (some existing) c id cs h k =
    count-update_other p (is_chunk c.upload_id c.chunk_index) (set_columns existing c) cs (λ x q.
      (h (set_columns existing c x) (unfold set_columns in k), h x (is_chunk_other c x id q k)))
count-write_other p none c id cs h k = rw count-append (unfold count in rw (h c k) (omega arith))

All-update_taken :
    {A : Type 0} (P : A → Type 0) (q : A → Bool) (f : A → A) (xs : List A)
    → ((x : A) → q x ≡ true → P x → P (f x))
    → All P xs
    → All P (update q f xs)
unfolding update
All-update_taken P q f [] h a = tt
All-update_taken P q f (x ∷ xs) h a = elim (Bool-cases (q x)) [
  | inl e ↦ rw e (h x e a.0, All-update_taken P q f xs h a.1)
  | inr e ↦ rw e (a.0, All-update_taken P q f xs h a.1)
]

pub All-write :
    (P : Chunk → Type 0) (existing : Option Chunk) (c : Chunk) (cs : List Chunk)
    → ((loaded y : Chunk)
        → is_chunk c.upload_id c.chunk_index y ≡ true
        → P y
        → P (set_columns loaded c y))
    → P c
    → All P cs
    → All P (write_chunk_row existing c cs)
unfolding write_chunk_row
All-write P (some existing) c cs h new a =
    All-update_taken P (is_chunk c.upload_id c.chunk_index) (set_columns existing c) cs (h existing)
      a
All-write P none c cs h new a = All-append P cs (c ∷ []) a (new, tt)

pub set_columns-Fits :
    (c loaded y : Chunk) (j : Text) (n : ℕ)
    → is_chunk c.upload_id c.chunk_index y ≡ true
    → Fits j n y
    → Fits j n c
    → Fits j n (set_columns loaded c y)
unfolding is_chunk
set_columns-Fits c loaded y j n own old new = record {
  fits = λ q.
      let k : c.upload_id ≡ j = unfold set_columns in q in
      let was = old.fits (ground (arith, text_eq_iff y.upload_id c.upload_id, own, k)) in
      (set_columns-uploaded loaded c y (new.fits k).0 was.0, unfold set_columns in (new.fits k).1);
}
