-- ===== src/Text/Decimal.antt =====
-- `str(n)` of a natural number, and the value of a run of digits.
use distributed_file_service.Prelude.{
  All, List, [], ap, arith, if◌then◌else◌, ltb, refl, suc, sym, zero, ℕ, ◌%◌, ◌*◌, ◌+◌, ◌-◌, ◌/◌,
  ◌<◌, ◌∙◌, ◌∷◌, ◌≡◌, ◌≤◌,
}

-- The digits of `n`, last first, with fuel.
unfoldable pub digits_rev : ℕ → ℕ → List ℕ
digits_rev zero n = []
digits_rev (suc f) n =
    let rest = digits_rev f (n / 10) in if ltb n 10 then (48 + n) ∷ [] else (48 + n % 10) ∷ rest

unfoldable pub reverse_onto : List ℕ → List ℕ → List ℕ
reverse_onto [] acc = acc
reverse_onto (c ∷ s) acc = reverse_onto s (c ∷ acc)

-- One digit takes one unit of fuel, and a number has no more digits than one above itself.
unfoldable pub decimal : ℕ → List ℕ
unfolding digits_rev reverse_onto
decimal n = reverse_onto (digits_rev (suc n) n) []

-- The number that digits stand for, read from the left.
unfoldable pub value : ℕ → List ℕ → ℕ
value acc [] = acc
value acc (c ∷ s) = value (acc * 10 + (c - 48)) s

abbrev pub IsDigit : ℕ → Type 0
IsDigit c = (48 ≤ c) × (c ≤ 57)

value_rev : List ℕ → ℕ
value_rev [] = 0
value_rev (c ∷ s) = value_rev s * 10 + (c - 48)

value-reverse_onto :
    (s acc : List ℕ) (a : ℕ)
    → value a (reverse_onto s acc) ≡ value (value a (reverse_onto s [])) acc
unfolding reverse_onto value
value-reverse_onto [] acc a = refl
value-reverse_onto (c ∷ s) acc a =
    value-reverse_onto s (c ∷ acc) a ∙ ap (λ k. value k acc) (sym (value-reverse_onto s (c ∷ []) a))

value-rev : (s : List ℕ) → value 0 (reverse_onto s []) ≡ value_rev s
unfolding reverse_onto value value_rev
value-rev [] = refl
value-rev (c ∷ s) = value-reverse_onto s (c ∷ []) 0 ∙ ap (λ k. k * 10 + (c - 48)) (value-rev s)

value_rev-digits_rev : (f n : ℕ) → n < f → value_rev (digits_rev f n) ≡ n
unfolding value_rev digits_rev
value_rev-digits_rev zero n h = absurd (omega arith)
value_rev-digits_rev (suc f) n h = ground (arith, value_rev-digits_rev f (n / 10))

-- The digits of a number stand for it, so different numbers have different digits.
pub value-decimal : (n : ℕ) → value 0 (decimal n) ≡ n
unfolding decimal
value-decimal n = value-rev (digits_rev (suc n) n) ∙ value_rev-digits_rev (suc n) n (omega arith)

pub decimal_inj : (m n : ℕ) → decimal m ≡ decimal n → m ≡ n
decimal_inj m n e = sym (value-decimal m) ∙ ap (value 0) e ∙ value-decimal n

digits_rev-IsDigit : (f n : ℕ) → All IsDigit (digits_rev f n)
unfolding digits_rev
digits_rev-IsDigit zero n = tt
digits_rev-IsDigit (suc f) n = ground (arith, digits_rev-IsDigit f (n / 10))

reverse_onto-IsDigit :
    (s acc : List ℕ) → All IsDigit s → All IsDigit acc → All IsDigit (reverse_onto s acc)
unfolding reverse_onto
reverse_onto-IsDigit [] acc h k = k
reverse_onto-IsDigit (c ∷ s) acc h k = reverse_onto-IsDigit s (c ∷ acc) h.1 (h.0, k)

pub decimal-IsDigit : (n : ℕ) → All IsDigit (decimal n)
unfolding decimal
decimal-IsDigit n = reverse_onto-IsDigit (digits_rev (suc n) n) [] (digits_rev-IsDigit (suc n) n) tt
