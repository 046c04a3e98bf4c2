-- ===== src/Auth/Buckets.antt =====
-- Lists of times: the ones in a bucket, oldest first, and those that are recent.
use distributed_file_service.Prelude.{
  All, Bool, Bool-cases, List, [], arith, count, false, inl, inr, length, ltb, not, refl, select, ℕ,
  ◌++◌, ◌+◌, ◌∷◌, ◌≡◌, ◌≤◌,
}
use distributed_file_service.Models.Rows.{All-append}
use distributed_file_service.Auth.{drop_old}

-- Less than `window` ago, or just then.
abbrev pub recent : ℕ → ℕ → ℕ → Bool
recent window now t = not (ltb (t + window) now)

-- The times in a bucket go up.
abbrev pub Sorted : List ℕ → Type 0
Sorted [] = Unit
Sorted (t ∷ ts) = All (λ u. t ≤ u) ts × Sorted ts

select-All :
    (window now t : ℕ) (ts : List ℕ)
    → All (λ u. t ≤ u) ts
    → ltb (t + window) now ≡ false
    → select (recent window now) ts ≡ ts
unfolding select
select-All window now t [] h e = refl
select-All window now t (u ∷ us) h e = ground (arith, select-All window now t us h.1 e, h.0)

-- What is dropped from the front is all that is too old.
pub drop_old-select :
    (now window : ℕ) (ts : List ℕ)
    → Sorted ts
    → drop_old now window ts ≡ select (recent window now) ts
unfolding drop_old select
drop_old-select now window [] h = refl
drop_old-select now window (t ∷ ts) h = elim (Bool-cases (ltb (t + window) now)) [
  | inl e ↦ rw e (drop_old-select now window ts h.1)
  | inr e ↦ rw (e, select-All window now t ts h.0 e)
]

pub select-select :
    (window now later : ℕ) (ts : List ℕ)
    → now ≤ later
    → select (recent window later) (select (recent window now) ts) ≡ select (recent window later) ts
unfolding select
select-select window now later [] h = refl
select-select window now later (t ∷ ts) h = ground (arith, select-select window now later ts h)

pub select-append :
    (p : ℕ → Bool) (xs ys : List ℕ) → select p (xs ++ ys) ≡ select p xs ++ select p ys
unfolding select
select-append p [] ys = refl
select-append p (x ∷ xs) ys = elim (Bool-cases (p x)) [
  | inl e ↦ rw (e, select-append p xs ys)
  | inr e ↦ rw (e, select-append p xs ys)
]

pub count-le-length : (p : ℕ → Bool) (xs : List ℕ) → count p xs ≤ length xs
unfolding count
count-le-length p [] = omega arith
count-le-length p (x ∷ xs) = ground (arith, count-le-length p xs)

pub All-select : (P : ℕ → Type 0) (p : ℕ → Bool) (xs : List ℕ) → All P xs → All P (select p xs)
unfolding select
All-select P p [] h = tt
All-select P p (x ∷ xs) h = elim (Bool-cases (p x)) [
  | inl e ↦ rw e (h.0, All-select P p xs h.1)
  | inr e ↦ rw e (All-select P p xs h.1)
]

pub Sorted-select : (p : ℕ → Bool) (xs : List ℕ) → Sorted xs → Sorted (select p xs)
unfolding select
Sorted-select p [] h = tt
Sorted-select p (x ∷ xs) h = elim (Bool-cases (p x)) [
  | inl e ↦ rw e (All-select (λ u. x ≤ u) p xs h.0, Sorted-select p xs h.1)
  | inr e ↦ rw e (Sorted-select p xs h.1)
]

pub Sorted-append : (xs : List ℕ) (t : ℕ) → Sorted xs → All (λ u. u ≤ t) xs → Sorted (xs ++ t ∷ [])
Sorted-append [] t h a = (tt, tt)
Sorted-append (x ∷ xs) t h a =
    (All-append (λ u. x ≤ u) xs (t ∷ []) h.0 (a.0, tt), Sorted-append xs t h.1 a.1)
