-- ===== src/Exec.antt =====
-- Code that changes an object and may raise: what it changed before a raise stays changed, so the
-- state comes back beside the exception too. `HTTPException` is told apart from the others.
pub mod Keeps
pub mod Cases
use Prim.Native.String.{String, ◌++◌ as str_append}
use distributed_file_service.Prelude.{Bool, List, [], false, true, ℕ}

pub record HttpException : Type 0 where
  pub status_code : ℕ
  pub detail : String
  pub headers : List (String × String)

pub data Error : Type 0 where
  http : HttpException → Error
  unhandled : String → Error

pub data Outcome {ℓ} (A : Type ℓ) : Type ℓ where
  ok : A → Outcome A
  raised : Error → Outcome A

abbrev pub Exec {ℓ} : Type ℓ → Type ℓ → Type ℓ
Exec S A = S → Outcome A × S

abbrev pub http_error : ℕ → String → Error
http_error status detail = http (record { status_code = status; detail = detail; headers = [] })

-- `f"{prefix}{exc}"`.
abbrev pub message_of : String → Error → String
message_of prefix (http e) = str_append prefix e.detail
message_of prefix (unhandled text) = str_append prefix text

module _ {ℓ} {S A : Type ℓ} where
  abbrev pub pure : A → Exec S A
  pure a s = (ok a, s)

  abbrev pub raise : Error → Exec S A
  raise e s = (raised e, s)

  abbrev pub gets : (S → A) → Exec S A
  gets f s = (ok (f s), s)

  -- `try: m except Exception as exc: handler exc`.
  abbrev pub catch_with : (Error → Exec S A) → Outcome A × S → Outcome A × S
  catch_with handler (ok a, s) = (ok a, s)
  catch_with handler (raised e, s) = handler e s

  abbrev pub try_except : Exec S A → (Error → Exec S A) → Exec S A
  try_except m handler s = catch_with handler (m s)

  -- `try: m finally: cleanup`, for a cleanup that does not raise.
  abbrev pub try_finally : Exec S A → (S → S) → Exec S A
  try_finally m cleanup s = let (r, s') = m s in (r, cleanup s')

abbrev pub modify {ℓ} : {S : Type ℓ} → (S → S) → Exec S (Unit {ℓ})
modify f s = (ok tt, f s)

-- `if b: raise e`.
abbrev pub raise_if {ℓ} : {S : Type ℓ} → Bool → Error → Exec S (Unit {ℓ})
raise_if true e s = (raised e, s)
raise_if false e s = (ok tt, s)

module _ {ℓ} {S A B : Type ℓ} where
  abbrev pub next_with : (A → Exec S B) → Outcome A × S → Outcome B × S
  next_with f (ok a, s) = f a s
  next_with f (raised e, s) = (raised e, s)

  infixl 10 ◌>>=◌ ◌>>◌
  abbrev pub ◌>>=◌ : Exec S A → (A → Exec S B) → Exec S B
  ◌>>=◌ m f s = next_with f (m s)

  abbrev pub ◌>>◌ : Exec S A → Exec S B → Exec S B
  m >> n = m >>= λ _. n

-- A method of a part of the state, called on the whole: `put` writes the part back.
abbrev pub zoom {ℓ} : {S T A : Type ℓ} → (S → T) → (T → S → S) → Exec T A → Exec S A
zoom part put m s = let (r, t) = m (part s) in (r, put t s)
