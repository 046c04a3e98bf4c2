-- ===== src/Text/Strip.antt =====
-- `s.strip()` and the whitespace that it removes.
use distributed_file_service.Prelude.{Bool, List, [], if◌then◌else◌, leb, ℕ, ◌&&◌, ◌==◌, ◌||◌, ◌∷◌}
use distributed_file_service.Text.Decimal.{reverse_onto}

-- What `str.isspace` takes.
unfoldable pub is_space : ℕ → Bool
is_space c =
    (leb 9 c && leb c 13)
    || (leb 28 c && leb c 32)
    || c == 0x85
    || c == 0xa0
    || c == 0x1680
    || (leb 0x2000 c && leb c 0x200a)
    || c == 0x2028
    || c == 0x2029
    || c == 0x202f
    || c == 0x205f
    || c == 0x3000

unfoldable pub strip_left : List ℕ → List ℕ
unfolding is_space
strip_left [] = []
strip_left (c ∷ s) = let rest = strip_left s in if is_space c then rest else c ∷ s

unfoldable pub strip : List ℕ → List ℕ
unfolding strip_left reverse_onto
strip s = reverse_onto (strip_left (reverse_onto (strip_left s) [])) []
