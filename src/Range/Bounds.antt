-- ===== src/Range/Bounds.antt =====
-- What `_parse_range` accepts and how it refuses.
use distributed_file_service.Prelude.{Option, arith, none, some, ℕ, ◌-◌, ◌<◌, ◌≡◌, ◌≤◌}
use distributed_file_service.Prelude.Int.{pos, ℤ}
use distributed_file_service.Text.{Text, codes, split_once, strip_prefix?}
use distributed_file_service.Exec.{Outcome, http_error, ok, raised}
use distributed_file_service.Range.{and_then, check_bounds, int_or, parse_bounds, parse_range}

check_bounds-ok :
    (a b : ℤ) (size start end : ℕ)
    → check_bounds a b size ≡ ok (start, end)
    → (start ≤ end) × (end < size)
unfolding check_bounds
check_bounds-ok a b size start end h = ground arith

parse_bounds-ok :
    (first : Text) (second : Option Text) (size start end : ℕ)
    → parse_bounds first second size ≡ ok (start, end)
    → (start ≤ end) × (end < size)
unfolding parse_bounds
parse_bounds-ok first none size start end h = ground arith
parse_bounds-ok first (some t) size start end h =
    go (int_or first (pos 0)) (int_or t (pos (size - 1))) h
  where
    go :
        (x y : Outcome ℤ)
        → and_then x (λ a. and_then y (λ b. check_bounds a b size)) ≡ ok (start, end)
        → (start ≤ end) × (end < size)
    go (ok a) (ok b) e = check_bounds-ok a b size start end e
    go (ok a) (raised x) e = ground arith
    go (raised x) y e = ground arith

-- An accepted range is not empty and lies inside the file.
pub parse_range_bounds :
    (header : Text) (size start end : ℕ)
    → parse_range header size ≡ ok (start, end)
    → (start ≤ end) × (end < size)
unfolding parse_range
parse_range_bounds header size start end h = go (strip_prefix? (codes "bytes=") header) h
  where
    go :
        (o : Option Text)
        → (elim o [
          | none ↦ raised (http_error 416 "invalid range header")
          | some spec ↦ parse_bounds (split_once b'-' spec).0 (split_once b'-' spec).1 size
        ])
          ≡ ok (start, end)
        → (start ≤ end) × (end < size)
    go none e = ground arith
    go (some spec) e =
        parse_bounds-ok (split_once b'-' spec).0 (split_once b'-' spec).1 size start end e
