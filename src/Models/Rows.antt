-- ===== src/Models/Rows.antt =====
-- Laws of the queries and changes of a table.
use distributed_file_service.Prelude.{
  All, Bool, Bool-cases, List, [], any, arith, count, false, find, if◌then◌else◌, inl, inr, length,
  none, not, refl, select, some, suc, true, update, ◌++◌, ◌+◌, ◌||◌, ◌∷◌, ◌≡◌,
}
use distributed_file_service.Text.{Text, text_eq, text_eq_iff}
use distributed_file_service.Models.{
  Chunk, Upload, UploadStatus, completed, has_id, in_progress, insert_chunk, is_completed,
  is_in_progress, order_by_index,
}

module _ {ℓ} {A : Type ℓ} where
  pub find-append :
      (p : A → Bool) (xs ys : List A)
      → find p (xs ++ ys) ≡ elim (find p xs) [ none ↦ find p ys | some x ↦ some x ]
  unfolding find
  find-append p [] ys = refl
  find-append p (x ∷ xs) ys = elim (Bool-cases (p x)) [
    | inl h ↦ rw (h, find)
    | inr h ↦ rw (h, find) (find-append p xs ys)
  ]

  pub count-append : (p : A → Bool) (xs ys : List A) → count p (xs ++ ys) ≡ count p xs + count p ys
  unfolding count
  count-append p [] ys = omega arith
  count-append p (x ∷ xs) ys = omega (arith, count-append p xs ys)

  pub length-select : (p : A → Bool) (xs : List A) → length (select p xs) ≡ count p xs
  unfolding select count
  length-select p [] = refl
  length-select p (x ∷ xs) = ground (arith, length-select p xs)

  -- A change that a test does not see.
  pub count-update :
      (p q : A → Bool) (f : A → A) (xs : List A)
      → ((x : A) → p (f x) ≡ p x)
      → count p (update q f xs) ≡ count p xs
  unfolding count update
  count-update p q f [] h = refl
  count-update p q f (x ∷ xs) h = ground (arith, count-update p q f xs h, h x)

  pub any-append : (p : A → Bool) (xs ys : List A) → any p (xs ++ ys) ≡ (any p xs || any p ys)
  unfolding any
  any-append p [] ys = refl
  any-append p (x ∷ xs) ys = ground (arith, any-append p xs ys)

  pub find-none-any : (p : A → Bool) (xs : List A) → find p xs ≡ none → any p xs ≡ false
  unfolding find any
  find-none-any p [] h = refl
  find-none-any p (x ∷ xs) h = ground (arith, find-none-any p xs)

  pub find-none-count : (p : A → Bool) (xs : List A) → find p xs ≡ none → count p xs ≡ 0
  unfolding find count
  find-none-count p [] h = refl
  find-none-count p (x ∷ xs) h = ground (arith, find-none-count p xs)

  pub find-some : (p : A → Bool) (xs : List A) (x : A) → find p xs ≡ some x → p x ≡ true
  unfolding find
  find-some p [] x h = cc
  find-some p (y ∷ xs) x h = elim (Bool-cases (p y)) [
    | inl e ↦ ground (arith, e)
    | inr e ↦ find-some p xs x (rw (e, find) at h)
  ]

  pub All-append {κ} : (P : A → Type κ) (xs ys : List A) → All P xs → All P ys → All P (xs ++ ys)
  All-append P [] ys h k = k
  All-append P (x ∷ xs) ys h k = (h.0, All-append P xs ys h.1 k)

  pub All-map {κ} : {P R : A → Type κ} (xs : List A) → ((x : A) → P x → R x) → All P xs → All R xs
  All-map [] f h = tt
  All-map (x ∷ xs) f h = (f x h.0, All-map xs f h.1)

-- An upload under an id, after a change of the rows of one id that keeps the ids.
pub find-update_upload :
    (i j : Text) (f : Upload → Upload) (us : List Upload)
    → ((u : Upload) → (f u).id ≡ u.id)
    → find (has_id j) (update (has_id i) f us) ≡ (
        if text_eq i j
        then elim (find (has_id j) us) [ none ↦ none | some u ↦ some (f u) ]
        else find (has_id j) us)
unfolding find update
find-update_upload i j f [] h = ground arith
find-update_upload i j f (u ∷ us) h = ground (
  arith,
  find-update_upload i j f us h,
  h u,
  text_eq_iff u.id i,
  text_eq_iff u.id j,
  text_eq_iff i j,
)

length-insert_chunk : (c : Chunk) (cs : List Chunk) → length (insert_chunk c cs) ≡ suc (length cs)
unfolding insert_chunk
length-insert_chunk c [] = refl
length-insert_chunk c (d ∷ ds) = ground (arith, length-insert_chunk c ds)

pub length-order_by_index : (cs : List Chunk) → length (order_by_index cs) ≡ length cs
unfolding order_by_index
length-order_by_index [] = refl
length-order_by_index (c ∷ cs) =
    omega (arith, length-insert_chunk c (order_by_index cs), length-order_by_index cs)

pub is_completed_lem : (t : UploadStatus) → is_completed t ≡ true → t ≡ completed
is_completed_lem t h = ground arith

pub is_in_progress_lem : (t : UploadStatus) → not (is_in_progress t) ≡ false → t ≡ in_progress
is_in_progress_lem t h = ground arith
