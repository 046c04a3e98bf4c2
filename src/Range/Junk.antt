-- ===== src/Range/Junk.antt =====
-- `int` on a text that is no number, and `_parse_range` on a header with one.
use distributed_file_service.Prelude.{
  Bool, Bool-cases, [], any, arith, false, inl, inr, none, not, refl, true, ℕ, ◌*◌, ◌+◌, ◌-◌, ◌==◌,
  ◌||◌, ◌∙◌, ◌∷◌, ◌≡◌,
}
use distributed_file_service.Prelude.Int.{pos, ℤ}
use distributed_file_service.Text.{Text}
use distributed_file_service.Text.Decimal.{reverse_onto}
use distributed_file_service.Text.Strip.{is_space, strip, strip_left}
use distributed_file_service.Exec.{raised}
use distributed_file_service.Range.{
  digits_value, int_or, is_digit, natural, parse_bounds, parse_range, py_int, signed, value_error,
}
use distributed_file_service.Range.RoundTrip.{
  IsNumeral, int_or-numeral, parse_range-header, range_header,
}

-- Neither a digit, an underscore, a sign, nor whitespace: no integer is written with it.
abbrev pub is_foreign : ℕ → Bool
is_foreign c = not (is_digit c || (c == b'_' || (c == b'-' || (c == b'+' || is_space c))))

any-strip_left : (s : Text) → any is_foreign (strip_left s) ≡ any is_foreign s
unfolding strip_left any
any-strip_left [] = refl
any-strip_left (c ∷ s) = elim (Bool-cases (is_space c)) [
  | inl e ↦ rw e (ground (arith, any-strip_left s, e))
  | inr e ↦ ground (arith, e)
]

any-reverse_onto :
    (s acc : Text) → any is_foreign (reverse_onto s acc) ≡ (any is_foreign s || any is_foreign acc)
unfolding reverse_onto any
any-reverse_onto [] acc = refl
any-reverse_onto (c ∷ s) acc = ground (arith, any-reverse_onto s (c ∷ acc))

any-strip : (s : Text) → any is_foreign (strip s) ≡ any is_foreign s
unfolding strip any
any-strip s = ground (
  arith,
  any-reverse_onto (strip_left (reverse_onto (strip_left s) [])) [],
  any-strip_left (reverse_onto (strip_left s) []),
  any-reverse_onto (strip_left s) [],
  any-strip_left s,
)

digits_value-foreign :
    (acc : ℕ) (after : Bool) (s : Text) → any is_foreign s ≡ true → digits_value acc after s ≡ none
unfolding digits_value any
digits_value-foreign acc after [] h = ground (arith, h)
digits_value-foreign acc after (c ∷ s) h =
    ground (
      arith,
      h,
      digits_value-foreign (acc * 10 + (c - 48)) true s,
      digits_value-foreign acc false s,
    )

natural-foreign : (s : Text) → any is_foreign s ≡ true → natural s ≡ none
unfolding natural
natural-foreign s h = ground (arith, digits_value-foreign 0 false s h)

signed-foreign : (s : Text) → any is_foreign s ≡ true → signed s ≡ none
unfolding signed any
signed-foreign [] h = refl
signed-foreign (c ∷ s) h = elim (Bool-cases (c == b'-')) [
  | inl e ↦ rw (e, natural-foreign s (ground (arith, h, e))) refl
  | inr e ↦ elim (Bool-cases (c == b'+')) [
    | inl f ↦ rw (e, f, natural-foreign s (ground (arith, h, f))) refl
    | inr f ↦ rw (e, f, natural-foreign (c ∷ s) h) refl
  ]
]

py_int-foreign : (s : Text) → any is_foreign s ≡ true → py_int s ≡ none
unfolding py_int
py_int-foreign s h = signed-foreign (strip s) (any-strip s ∙ h)

int_or-foreign : (s : Text) (d : ℤ) → any is_foreign s ≡ true → int_or s d ≡ raised value_error
unfolding int_or any
int_or-foreign [] d h = absurd (ground (arith, h))
int_or-foreign (c ∷ s) d h = rw (py_int-foreign (c ∷ s) h, int_or) refl

-- A header whose first part is a numeral and whose second part has a character that is no digit, no
-- underscore, no sign and no whitespace ends in the ValueError of `int`, not in a 416.
pub parse_range-junk :
    (first second : Text) (size : ℕ)
    → IsNumeral first
    → any is_foreign second ≡ true
    → parse_range (range_header first second) size ≡ raised value_error
unfolding parse_bounds
parse_range-junk first second size f h =
    rw
      (
        parse_range-header first second size f.digits,
        int_or-numeral first (pos 0) f,
        int_or-foreign second (pos (size - 1)) h,
      )
      refl
