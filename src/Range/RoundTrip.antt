-- ===== src/Range/RoundTrip.antt =====
-- `_parse_range` on the headers that a client writes: runs of digits around a dash.
use distributed_file_service.Prelude.{
  All, [], append-nil, arith, false, if◌then◌else◌, leb, length, ltb, refl, some, true, ℕ, ◌&&◌,
  ◌*◌, ◌++◌, ◌+◌, ◌-◌, ◌<◌, ◌∙◌, ◌∷◌, ◌≡◌, ◌≤◌,
}
use distributed_file_service.Prelude.Int.{pos, ℤ}
use distributed_file_service.Text.{Text, codes, split_once, strip_prefix?}
use distributed_file_service.Text.Decimal.{IsDigit, reverse_onto, value}
use distributed_file_service.Text.Strip.{strip, strip_left}
use distributed_file_service.Exec.{ok, raised}
use distributed_file_service.Range.{
  check_bounds, count_digits, digits_value, int_or, max_str_digits, natural, out_of_bounds,
  parse_bounds, parse_range, py_int,
}

-- A text that `int` reads as a natural number with no sign: digits, at least one and not too many.
pub record IsNumeral (s : Text) : Type 0 where
  pub digits : All IsDigit s
  pub some_digit : 0 < length s
  pub few_digits : length s ≤ max_str_digits

reverse_onto-append :
    (s t acc : Text) → reverse_onto (reverse_onto s t) acc ≡ reverse_onto t (s ++ acc)
unfolding reverse_onto
reverse_onto-append [] t acc = refl
reverse_onto-append (c ∷ s) t acc = reverse_onto-append s (c ∷ t) acc

reverse_onto_digits :
    (s acc : Text) → All IsDigit s → All IsDigit acc → All IsDigit (reverse_onto s acc)
unfolding reverse_onto
reverse_onto_digits [] acc h k = k
reverse_onto_digits (c ∷ s) acc h k = reverse_onto_digits s (c ∷ acc) h.1 (h.0, k)

strip_left_digits : (s : Text) → All IsDigit s → strip_left s ≡ s
unfolding strip_left
strip_left_digits [] h = refl
strip_left_digits (c ∷ s) h = ground arith

strip_digits : (s : Text) → All IsDigit s → strip s ≡ s
unfolding strip reverse_onto
strip_digits s h =
    rw
      (strip_left_digits s h, strip_left_digits (reverse_onto s []) (reverse_onto_digits s [] h tt))
      (reverse_onto-append s [] [] ∙ append-nil s)

count_digits-All : (s : Text) → All IsDigit s → count_digits s ≡ length s
unfolding count_digits
count_digits-All [] h = refl
count_digits-All (c ∷ s) h = ground (arith, count_digits-All s h.1)

digits_value-All :
    (acc : ℕ) (s : Text) → All IsDigit s → digits_value acc true s ≡ some (value acc s)
unfolding digits_value value
digits_value-All acc [] h = refl
digits_value-All acc (c ∷ s) h = ground (arith, digits_value-All (acc * 10 + (c - 48)) s h.1)

first_digit :
    (c : ℕ) (s : Text) → All IsDigit (c ∷ s) → digits_value 0 false (c ∷ s) ≡ some (value 0 (c ∷ s))
unfolding digits_value value
first_digit c s k = ground (arith, digits_value-All (0 * 10 + (c - 48)) s k.1)

natural-numeral : (s : Text) → IsNumeral s → natural s ≡ some (value 0 s)
unfolding natural
natural-numeral [] h = absurd (omega (arith, h.some_digit))
natural-numeral (c ∷ s) h =
    ground (arith, count_digits-All (c ∷ s) h.digits, first_digit c s h.digits, h.few_digits)

py_int-numeral : (s : Text) → IsNumeral s → py_int s ≡ some (pos (value 0 s))
unfolding py_int
py_int-numeral [] h = absurd (omega (arith, h.some_digit))
py_int-numeral (c ∷ s) h =
    rw (strip_digits (c ∷ s) h.digits) (ground (arith, natural-numeral (c ∷ s) h, h.digits.0))

pub int_or-numeral : (s : Text) (d : ℤ) → IsNumeral s → int_or s d ≡ ok (pos (value 0 s))
unfolding int_or
int_or-numeral [] d h = absurd (omega (arith, h.some_digit))
int_or-numeral (c ∷ s) d h = rw (py_int-numeral (c ∷ s) h, int_or)

split_once_digits : (s t : Text) → All IsDigit s → split_once b'-' (s ++ b'-' ∷ t) ≡ (s, some t)
unfolding split_once
split_once_digits [] t h = ground arith
split_once_digits (c ∷ s) t h = ground (arith, split_once_digits s t h.1)

strip_prefix?-append : (p s : Text) → strip_prefix? p (p ++ s) ≡ some s
unfolding strip_prefix?
strip_prefix?-append [] s = refl
strip_prefix?-append (c ∷ p) s = ground (arith, strip_prefix?-append p s)

-- The header `bytes=<first>-<second>`.
abbrev pub range_header : Text → Text → Text
range_header first second = codes "bytes=" ++ (first ++ b'-' ∷ second)

pub parse_range-header :
    (first second : Text) (size : ℕ)
    → All IsDigit first
    → parse_range (range_header first second) size ≡ parse_bounds first (some second) size
unfolding parse_range
parse_range-header first second size h = rw (split_once_digits first second h)

-- A header with two numerals is read as their values, when the first is not above the second and
-- the second lies in the file; every other pair is refused with 416.
pub parse_range-numerals :
    (first second : Text) (size : ℕ)
    → IsNumeral first
    → IsNumeral second
    → parse_range (range_header first second) size ≡ (
        if leb (value 0 first) (value 0 second) && ltb (value 0 second) size
        then ok (value 0 first, value 0 second)
        else raised out_of_bounds)
unfolding parse_bounds check_bounds
parse_range-numerals first second size f s =
    rw
      (
        parse_range-header first second size f.digits,
        int_or-numeral first (pos 0) f,
        int_or-numeral second (pos (size - 1)) s,
      )
      (ground arith)

-- A header that leaves the end out is read to the last byte of a file that is not empty.
pub parse_range-open :
    (first : Text) (size : ℕ)
    → IsNumeral first
    → 0 < size
    → parse_range (range_header first []) size
      ≡ (if ltb (value 0 first) size then ok (value 0 first, size - 1) else raised out_of_bounds)
unfolding parse_bounds check_bounds
parse_range-open first size f h =
    rw (parse_range-header first [] size f.digits, int_or-numeral first (pos 0) f) (ground arith)

-- A suffix header `bytes=-n` with n below the size is answered with the first n + 1 bytes of the
-- file, from offset 0 on, not with the last n.
pub parse_range-suffix :
    (second : Text) (size : ℕ)
    → IsNumeral second
    → value 0 second < size
    → parse_range (range_header [] second) size ≡ ok (0, value 0 second)
unfolding parse_bounds check_bounds
parse_range-suffix second size s h =
    rw (parse_range-header [] second size tt, int_or-numeral second (pos (size - 1)) s)
      (ground arith)
