-- ===== src/Storage/Keys.antt =====
-- Chunks of one upload or of two never share an object.
use mathlib.Core.List.{append_cancel_left, append_cancel_right}
use distributed_file_service.Prelude.{
  All, [], append_assoc, arith, refl, sym, ℕ, ◌++◌, ◌∙◌, ◌∷◌, ◌≡◌, ◌≢◌,
}
use distributed_file_service.Text.{Text, codes}
use distributed_file_service.Text.Decimal.{IsDigit, decimal, decimal-IsDigit, decimal_inj}
use distributed_file_service.Storage.{chunk_key}

digits_have_no_mark : (s a d : Text) → All IsDigit s → s ≢ a ++ b'_' ∷ d
digits_have_no_mark [] [] d h e = cc
digits_have_no_mark [] (x ∷ a) d h e = cc
digits_have_no_mark (c ∷ s) [] d h e = ground arith
digits_have_no_mark (c ∷ s) (x ∷ a) d h e = digits_have_no_mark s a d h.1 (cc)

-- A text ends in only one way in a mark and digits.
split_at_mark :
    (a b d e : Text)
    → All IsDigit d
    → All IsDigit e
    → a ++ b'_' ∷ d ≡ b ++ b'_' ∷ e
    → (a ≡ b) × (d ≡ e)
split_at_mark [] [] d e hd he p = (refl, cc)
split_at_mark [] (x ∷ b) d e hd he p = absurd (digits_have_no_mark d b e hd (cc))
split_at_mark (x ∷ a) [] d e hd he p = absurd (digits_have_no_mark e a d he (cc))
split_at_mark (x ∷ a) (y ∷ b) d e hd he p =
    let (q, r) = split_at_mark a b d e hd he (cc) in ((cc), r)

-- The key of a chunk determines its upload and its index.
pub chunk_key_inj : (u v : Text) (i j : ℕ) → chunk_key u i ≡ chunk_key v j → (u ≡ v) × (i ≡ j)
unfolding chunk_key
chunk_key_inj u v i j h =
    let e = append_cancel_left (codes "uploads/") _ _ h in
    let (a, d) =
      split_at_mark (u ++ codes "/chunk") (v ++ codes "/chunk") (decimal i) (decimal j)
        (decimal-IsDigit i) (decimal-IsDigit j)
        (append_assoc u (codes "/chunk") _ ∙ e ∙ sym (append_assoc v (codes "/chunk") _)) in
    (append_cancel_right u v (codes "/chunk") a, decimal_inj i j d)
