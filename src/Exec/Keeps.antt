-- ===== src/Exec/Keeps.antt =====
-- Invariants of code that may raise: one rule for each way to build it.
use distributed_file_service.Prelude.{Bool, false, if◌then◌else◌, refl, true, ◌≡◌}
use distributed_file_service.Exec.{
  Error, Exec, Outcome, catch_with, gets, modify, next_with, ok, pure, raise, raise_if, raised,
  try_except, try_finally, ◌>>=◌,
}

-- From a state with `P`, `m` comes back in a state with `P`, whether it returns or raises.
pub record Keeps {ℓ} {S A : Type ℓ} (P : S → Type ℓ) (m : Exec S A) : Type ℓ where
  pub run : (s : S) → P s → P (m s).1

module _ {ℓ} {S A : Type ℓ} {P : S → Type ℓ} where
  pub Keeps-pure : (a : A) → Keeps P (pure a)
  Keeps-pure a = record { run = λ s h. h }

  pub Keeps-raise : (e : Error) → Keeps P (raise {A = A} e)
  Keeps-raise e = record { run = λ s h. h }

  pub Keeps-gets : (f : S → A) → Keeps P (gets f)
  Keeps-gets f = record { run = λ s h. h }

  pub Keeps-catch :
      (m : Exec S A) (f : Error → Exec S A)
      → Keeps P m
      → ((e : Error) → Keeps P (f e))
      → Keeps P (try_except m f)
  Keeps-catch m f km kf = record { run = λ s h. go (m s) (km.run s h) }
    where
      go : (r : Outcome A × S) → P r.1 → P (catch_with f r).1
      go (ok a, s) h = h
      go (raised e, s) h = (kf e).run s h

  pub Keeps-finally :
      (m : Exec S A) (f : S → S) → Keeps P m → ((s : S) → P s → P (f s)) → Keeps P (try_finally m f)
  Keeps-finally m f km kf = record { run = λ s h. kf (m s).1 (km.run s h) }

  pub Keeps-if :
      (test : Bool) (taken other : Exec S A)
      → (test ≡ true → Keeps P taken)
      → (test ≡ false → Keeps P other)
      → Keeps P (if test then taken else other)
  Keeps-if true taken other on_true on_false = on_true refl
  Keeps-if false taken other on_true on_false = on_false refl

pub Keeps-raise_if {ℓ} :
    {S : Type ℓ} {P : S → Type ℓ} (b : Bool) (e : Error) → Keeps P (raise_if b e)
Keeps-raise_if true e = record { run = λ s h. h }
Keeps-raise_if false e = record { run = λ s h. h }

pub Keeps-modify {ℓ} :
    {S : Type ℓ} {P : S → Type ℓ} (f : S → S) → ((s : S) → P s → P (f s)) → Keeps P (modify f)
Keeps-modify f kf = record { run = kf }

module _ {ℓ} {S A B : Type ℓ} {P : S → Type ℓ} where
  pub Keeps-bind :
      (m : Exec S A) (f : A → Exec S B) → Keeps P m → ((a : A) → Keeps P (f a)) → Keeps P (m >>= f)
  Keeps-bind m f km kf = record { run = λ s h. go (m s) (km.run s h) }
    where
      go : (r : Outcome A × S) → P r.1 → P (next_with f r).1
      go (ok a, s) h = (kf a).run s h
      go (raised e, s) h = h

pub ruleset keeps_rules = (
  Keeps-pure, Keeps-raise, Keeps-gets, Keeps-catch, Keeps-finally, Keeps-if, Keeps-raise_if,
  Keeps-bind,
)
