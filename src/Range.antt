-- ===== src/Range.antt =====
-- `_parse_range` of app/main.py, and Python's `int` on the text of a header.
pub mod Bounds
pub mod RoundTrip
pub mod Junk
use distributed_file_service.Prelude.{
  Bool, Option, [], false, if◌then◌else◌, leb, ltb, none, not, some, suc, true, zero, ℕ, ◌&&◌, ◌*◌,
  ◌+◌, ◌-◌, ◌==◌, ◌||◌, ◌∷◌,
}
use distributed_file_service.Prelude.Int.{ltb_ℤ, negsuc, pos, pos_part, ℤ}
use distributed_file_service.Text.{Text, codes, split_once, strip_prefix?}
use distributed_file_service.Text.Strip.{strip}
use distributed_file_service.Exec.{Error, Outcome, http_error, ok, raised, unhandled}

abbrev pub is_digit : ℕ → Bool
is_digit c = leb 48 c && leb c 57

-- Digits with single underscores between them; `after_digit` tells whether one stands before.
unfoldable pub digits_value : ℕ → Bool → Text → Option ℕ
digits_value acc after_digit [] = if after_digit then some acc else none
digits_value acc after_digit (c ∷ s) =
    let digit = digits_value (acc * 10 + (c - 48)) true s in
    let underscore = digits_value acc false s in
    if is_digit c then digit else if c == b'_' && after_digit then underscore else none

-- The interpreter refuses to convert more than 4300 digits.
abbrev pub max_str_digits : ℕ
max_str_digits = 4300

unfoldable pub count_digits : Text → ℕ
count_digits [] = 0
count_digits (c ∷ s) = (if is_digit c then 1 else 0) + count_digits s

unfoldable pub natural : Text → Option ℕ
unfolding digits_value count_digits
natural s = if ltb max_str_digits (count_digits s) then none else digits_value 0 false s

unfoldable pub negate : ℕ → ℤ
negate zero = pos 0
negate (suc n) = negsuc n

unfoldable pub signed : Text → Option ℤ
unfolding natural negate
signed [] = none
signed (c ∷ s) =
    if c == b'-'
    then elim (natural s) [ none ↦ none | some n ↦ some (negate n) ]
    else if c == b'+'
    then elim (natural s) [ none ↦ none | some n ↦ some (pos n) ]
    else elim (natural (c ∷ s)) [ none ↦ none | some n ↦ some (pos n) ]

-- `int(s)`; `none` is a ValueError.
unfoldable pub py_int : Text → Option ℤ
unfolding signed strip
py_int s = signed (strip s)

abbrev pub value_error : Error
value_error = unhandled "ValueError: invalid literal for int()"

abbrev pub out_of_bounds : Error
out_of_bounds = http_error 416 "range out of bounds"

-- `int(part) if part else default`.
unfoldable pub int_or : Text → ℤ → Outcome ℤ
unfolding py_int
int_or [] default = ok default
int_or (c ∷ s) default = elim (py_int (c ∷ s)) [ none ↦ raised value_error | some n ↦ ok n ]

-- The last test, and the numbers that are returned, which it leaves non-negative.
unfoldable pub check_bounds : ℤ → ℤ → ℕ → Outcome (ℕ × ℕ)
check_bounds start end file_size =
    if ltb_ℤ start (pos 0) || (ltb_ℤ end start || not (ltb_ℤ end (pos file_size)))
    then raised out_of_bounds
    else ok (pos_part start, pos_part end)

abbrev pub and_then {ℓ κ} : {A : Type ℓ} {B : Type κ} → Outcome A → (A → Outcome B) → Outcome B
and_then (ok a) f = f a
and_then (raised e) f = raised e

unfoldable pub parse_bounds : Text → Option Text → ℕ → Outcome (ℕ × ℕ)
unfolding int_or check_bounds
parse_bounds first none file_size = raised (http_error 416 "invalid range format")
parse_bounds first (some second) file_size =
    and_then (int_or first (pos 0)) λ start.
      and_then (int_or second (pos (file_size - 1))) λ end. check_bounds start end file_size

unfoldable pub parse_range : Text → ℕ → Outcome (ℕ × ℕ)
unfolding parse_bounds strip_prefix? split_once
parse_range range_header file_size = elim (strip_prefix? (codes "bytes=") range_header) [
  | none ↦ raised (http_error 416 "invalid range header")
  | some spec ↦ parse_bounds (split_once b'-' spec).0 (split_once b'-' spec).1 file_size
]
