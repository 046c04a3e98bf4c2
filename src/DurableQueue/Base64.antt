-- ===== src/DurableQueue/Base64.antt =====
-- `base64.b64encode`, and `base64.b64decode` as it reads any text: it skips what is not of the
-- alphabet, and stops at a padding that completes a group.
use distributed_file_service.Prelude.{
  All, Option, [], arith, if◌then◌else◌, leb, ltb, none, refl, some, ℕ, ◌%◌, ◌&&◌, ◌*◌, ◌+◌, ◌-◌,
  ◌/◌, ◌<◌, ◌==◌, ◌∷◌, ◌≡◌,
}
use distributed_file_service.Text.{Bytes, Text}

unfoldable pub symbol : ℕ → ℕ
symbol i =
    if ltb i 26
    then 65 + i
    else if ltb i 52
    then 71 + i
    else if ltb i 62
    then i - 4
    else if i == 62
    then b'+'
    else b'/'

unfoldable pub sextet : ℕ → Option ℕ
sextet c =
    if leb 65 c && leb c 90
    then some (c - 65)
    else if leb 97 c && leb c 122
    then some (c - 71)
    else if leb 48 c && leb c 57
    then some (c + 4)
    else if c == b'+'
    then some 62
    else if c == b'/'
    then some 63
    else none

unfoldable pub encode : Bytes → Text
encode [] = []
encode (a ∷ []) = symbol (a / 4) ∷ symbol (a % 4 * 16) ∷ b'=' ∷ b'=' ∷ []
encode (a ∷ b ∷ []) =
    symbol (a / 4) ∷ symbol (a % 4 * 16 + b / 16) ∷ symbol (b % 16 * 4) ∷ b'=' ∷ []
encode (a ∷ b ∷ c ∷ rest) =
    symbol (a / 4)
    ∷ symbol (a % 4 * 16 + b / 16)
    ∷ symbol (b % 16 * 4 + c / 64)
    ∷ symbol (c % 64)
    ∷ encode rest

abbrev push : ℕ → Option Bytes → Option Bytes
push b none = none
push b (some bs) = some (b ∷ bs)

-- `quad` is the place in a group of four, `left` the bits left over from the last symbol, `pads`
-- the padding seen since; `none` is a `binascii.Error`.
unfoldable pub decode_from : ℕ → ℕ → ℕ → Text → Option Bytes
unfolding sextet
decode_from quad left pads [] = if quad == 0 then some [] else none
decode_from quad left pads (c ∷ s) = elim (sextet c) [
  | some v ↦
      let first = decode_from 1 v 0 s in
      let second = decode_from 2 (v % 16) 0 s in
      let third = decode_from 3 (v % 4) 0 s in
      let fourth = decode_from 0 0 0 s in
      if quad == 0
      then first
      else if quad == 1
      then push (left * 4 + v / 16) second
      else if quad == 2
      then push (left * 16 + v / 4) third
      else push (left * 64 + v) fourth
  | none ↦
      let skipped = decode_from quad left pads s in
      let padded = decode_from quad left (pads + 1) s in
      if c == b'=' && leb 2 quad
      then (if leb 4 (quad + (pads + 1)) then some [] else padded)
      else skipped
]

unfoldable pub decode : Text → Option Bytes
decode s = decode_from 0 0 0 s

abbrev pub IsByte : ℕ → Type 0
IsByte b = b < 256

sextet-symbol : (i : ℕ) → i < 64 → sextet (symbol i) ≡ some i
unfolding sextet symbol
sextet-symbol i h = ground arith

-- One step on a symbol, at each place of the group.
step0 :
    (i : ℕ) (l p : ℕ) (s : Text) → i < 64 → decode_from 0 l p (symbol i ∷ s) ≡ decode_from 1 i 0 s
unfolding decode_from
step0 i l p s h = rw (sextet-symbol i h, decode_from)

step1 :
    (i l p : ℕ) (s : Text)
    → i < 64
    → decode_from 1 l p (symbol i ∷ s) ≡ push (l * 4 + i / 16) (decode_from 2 (i % 16) 0 s)
unfolding decode_from
step1 i l p s h = rw (sextet-symbol i h, decode_from)

step2 :
    (i l p : ℕ) (s : Text)
    → i < 64
    → decode_from 2 l p (symbol i ∷ s) ≡ push (l * 16 + i / 4) (decode_from 3 (i % 4) 0 s)
unfolding decode_from
step2 i l p s h = rw (sextet-symbol i h, decode_from)

step3 :
    (i l p : ℕ) (s : Text)
    → i < 64
    → decode_from 3 l p (symbol i ∷ s) ≡ push (l * 64 + i) (decode_from 0 0 0 s)
unfolding decode_from
step3 i l p s h = rw (sextet-symbol i h, decode_from)

padding2 : (l : ℕ) → decode_from 2 l 0 (b'=' ∷ b'=' ∷ []) ≡ some []
unfolding decode_from
padding2 l = refl

padding3 : (l : ℕ) → decode_from 3 l 0 (b'=' ∷ []) ≡ some []
unfolding decode_from
padding3 l = refl

done : decode_from 0 0 0 [] ≡ some []
unfolding decode_from
done = refl

-- Decoding an encoded sequence of bytes gives it back.
pub decode-encode : (bytes : Bytes) → All IsByte bytes → decode (encode bytes) ≡ some bytes
unfolding decode encode
decode-encode [] h = done
decode-encode (a ∷ []) h =
    rw
      (
        step0 (a / 4) 0 0 _ (omega (arith, h.0)),
        step1 (a % 4 * 16) (a / 4) 0 _ (omega arith),
        padding2 (a % 4 * 16 % 16),
      )
      (ground arith)
decode-encode (a ∷ b ∷ []) h =
    rw
      (
        step0 (a / 4) 0 0 _ (omega (arith, h.0)),
        step1 (a % 4 * 16 + b / 16) (a / 4) 0 _ (omega (arith, h.1.0)),
        step2 (b % 16 * 4) ((a % 4 * 16 + b / 16) % 16) 0 _ (omega arith),
        padding3 (b % 16 * 4 % 4),
      )
      (ground arith)
decode-encode (a ∷ b ∷ c ∷ rest) h =
    rw
      (
        step0 (a / 4) 0 0 _ (omega (arith, h.0)),
        step1 (a % 4 * 16 + b / 16) (a / 4) 0 _ (omega (arith, h.1.0)),
        step2 (b % 16 * 4 + c / 64) ((a % 4 * 16 + b / 16) % 16) 0 _ (omega (arith, h.1.1.0)),
        step3 (c % 64) ((b % 16 * 4 + c / 64) % 4) 0 _ (omega arith),
        decode-encode rest h.1.1.1,
      )
      (ground arith)
