-- ===== src/Text.antt =====
-- Text as a list of code points: names, ids, keys and header values of the service, and the
-- operations of Python's `str` that the code uses on them.
pub mod Decimal
pub mod Strip
use Prim.Native.Char.{code}
use Prim.Native.String.{String}
use distributed_file_service.Prelude.{
  Bool, List, Option, [], arith, false, if◌then◌else◌, leb, none, refl, some, true, ℕ, ◌&&◌, ◌+◌,
  ◌==◌, ◌↔◌, ◌∷◌, ◌≡◌,
}

abbrev pub Text : Type 0
Text = List ℕ

abbrev pub Bytes : Type 0
Bytes = List ℕ

-- A text literal.
abbrev pub codes : String → Text
codes String.[] = []
codes (String.◌∷◌ c s) = code c ∷ codes s

unfoldable pub text_eq : Text → Text → Bool
text_eq [] [] = true
text_eq [] (d ∷ t) = false
text_eq (c ∷ s) [] = false
text_eq (c ∷ s) (d ∷ t) = c == d && text_eq s t

pub text_eq_iff : (s t : Text) → (text_eq s t ≡ true) ↔ (s ≡ t)
unfolding text_eq
text_eq_iff [] [] = ground arith
text_eq_iff [] (d ∷ t) = ground arith
text_eq_iff (c ∷ s) [] = ground arith
text_eq_iff (c ∷ s) (d ∷ t) = ground (arith, text_eq_iff s t)

pub text_eq_refl : (s : Text) → text_eq s s ≡ true
text_eq_refl s = (text_eq_iff s s).1 refl

-- `s.lower()` on ASCII; other code points are left as they are.
unfoldable pub lower : Text → Text
lower [] = []
lower (c ∷ s) = (if leb b'A' c && leb c b'Z' then c + 32 else c) ∷ lower s

-- `bool(s)`: a text is true when it has a character, an optional one when it is there and is.
abbrev pub truthy : Option Text → Bool
truthy none = false
truthy (some []) = false
truthy (some (c ∷ s)) = true

-- `s.startswith(p)`, and the rest after `p`.
unfoldable pub strip_prefix? : Text → Text → Option Text
strip_prefix? [] s = some s
strip_prefix? (c ∷ p) [] = none
strip_prefix? (c ∷ p) (d ∷ s) = let rest = strip_prefix? p s in if c == d then rest else none

-- `s.split(sep, 1)`: what stands before the first `sep`, and behind it if there is one.
unfoldable pub split_once : ℕ → Text → Text × Option Text
split_once sep [] = ([], none)
split_once sep (c ∷ s) =
    let rest = split_once sep s in if c == sep then ([], some s) else (c ∷ rest.0, rest.1)

-- `s.split(sep)`: always at least one piece.
unfoldable pub split : ℕ → Text → List Text
split sep [] = [] ∷ []
split sep (c ∷ s) = let rest = split sep s in if c == sep then [] ∷ rest else push_head c rest
  where
    push_head : ℕ → List Text → List Text
    push_head c [] = (c ∷ []) ∷ []
    push_head c (t ∷ ts) = (c ∷ t) ∷ ts
