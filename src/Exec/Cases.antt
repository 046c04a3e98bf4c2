-- ===== src/Exec/Cases.antt =====
-- Following one run: what `m` returns or raises, then what comes after it.
use distributed_file_service.Prelude.{Bool, false, inl, inr, refl, true, ◌≡◌, ◌⊎◌}
use distributed_file_service.Exec.{Error, Exec, Outcome, next_with, ok, raise_if, raised, ◌>>=◌}

module _ {ℓ κ} {S A B : Type ℓ} where
  pub bind_cases :
      (R : Outcome B × S → Type κ) (m : Exec S A) (f : A → Exec S B) (s : S)
      → ((a : A) (s' : S) → m s ≡ (ok a, s') → R (f a s'))
      → ((e : Error) (s' : S) → m s ≡ (raised e, s') → R (raised e, s'))
      → R ((m >>= f) s)
  bind_cases R m f s on_ok on_error = go (m s) refl
    where
      go : (p : Outcome A × S) → m s ≡ p → R (next_with f p)
      go (ok a, s') e = on_ok a s' e
      go (raised x, s') e = on_error x s' e

-- The same for a statement that the code tests.
pub raise_if_cases {ℓ κ} :
    {S B : Type ℓ} (R : Outcome B × S → Type κ) (b : Bool) (e : Error) (f : Unit {ℓ} → Exec S B)
    (s : S)
    → (b ≡ false → R (f tt s))
    → (b ≡ true → R (raised e, s))
    → R ((raise_if b e >>= f) s)
raise_if_cases R true e f s go_on stop = stop refl
raise_if_cases R false e f s go_on stop = go_on refl

pub raise_if-ok {ℓ} :
    {S : Type ℓ} (b : Bool) (e : Error) (s : S) → (raise_if b e s).0 ≡ ok tt → b ≡ false
raise_if-ok true e s h = cc
raise_if-ok false e s h = refl

-- How a run ended.
pub run_cases {ℓ} :
    {S A : Type ℓ} (p : Outcome A × S)
    → ((a : A) × (s : S) × (p ≡ (ok a, s))) ⊎ ((e : Error) × (s : S) × (p ≡ (raised e, s)))
run_cases (ok a, s) = inl (a, s, refl)
run_cases (raised e, s) = inr (e, s, refl)
