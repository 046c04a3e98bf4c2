-- ===== src/Json.antt =====
-- `json.dumps(obj, sort_keys=True, separators=(",", ":"))` on the flat objects that the service
-- writes. The output is ASCII, so encoding it in UTF-8 leaves the code points as they are.
use distributed_file_service.Prelude.{
  Bool, List, Option, [], false, if◌then◌else◌, leb, ltb, none, some, true, ℕ, ◌%◌, ◌&&◌, ◌++◌, ◌+◌,
  ◌-◌, ◌/◌, ◌==◌, ◌||◌, ◌∷◌,
}
use distributed_file_service.Text.{Text, codes}
use distributed_file_service.Text.Decimal.{decimal}

pub data Scalar : Type 0 where
  null : Scalar
  int : ℕ → Scalar
  str : Text → Scalar

abbrev pub optional : Option Text → Scalar
optional none = null
optional (some s) = str s

unfoldable pub hex_digit : ℕ → ℕ
hex_digit d = if ltb d 10 then 48 + d else 87 + d

-- `\uXXXX`.
unfoldable pub unicode_escape : ℕ → Text
unfolding hex_digit
unicode_escape c =
    b'\\'
    ∷ b'u'
    ∷ hex_digit (c / 4096 % 16)
    ∷ hex_digit (c / 256 % 16)
    ∷ hex_digit (c / 16 % 16)
    ∷ hex_digit (c % 16)
    ∷ []

unfoldable pub escape : ℕ → Text
unfolding unicode_escape
escape c =
    if c == b'"'
    then codes "\\\""
    else if c == 92
    then codes "\\\\"
    else if c == 10
    then codes "\\n"
    else if c == 13
    then codes "\\r"
    else if c == 9
    then codes "\\t"
    else if c == 12
    then codes "\\f"
    else if c == 8
    then codes "\\b"
    else if leb 32 c && leb c 126
    then c ∷ []
    else if ltb c 0x10000
    then unicode_escape c
    else unicode_escape (0xd800 + (c - 0x10000) / 1024) ++ unicode_escape (0xdc00 + c % 1024)

unfoldable pub escape_all : Text → Text
unfolding escape
escape_all [] = []
escape_all (c ∷ s) = escape c ++ escape_all s

unfoldable pub dump_scalar : Scalar → Text
unfolding escape_all decimal
dump_scalar null = codes "null"
dump_scalar (int n) = decimal n
dump_scalar (str s) = b'"' ∷ (escape_all s ++ b'"' ∷ [])

unfoldable pub text_lt : Text → Text → Bool
text_lt [] [] = false
text_lt [] (d ∷ t) = true
text_lt (c ∷ s) [] = false
text_lt (c ∷ s) (d ∷ t) = ltb c d || (c == d && text_lt s t)

unfoldable pub insert_key : Text × Scalar → List (Text × Scalar) → List (Text × Scalar)
unfolding text_lt
insert_key (k, v) [] = (k, v) ∷ []
insert_key (k, v) ((j, w) ∷ m) =
    let rest = insert_key (k, v) m in if text_lt k j then (k, v) ∷ (j, w) ∷ m else (j, w) ∷ rest

unfoldable pub sort_keys : List (Text × Scalar) → List (Text × Scalar)
unfolding insert_key
sort_keys [] = []
sort_keys (entry ∷ m) = insert_key entry (sort_keys m)

unfoldable pub dump_entries : List (Text × Scalar) → Text
unfolding dump_scalar
dump_entries [] = []
dump_entries ((k, v) ∷ []) = dump_scalar (str k) ++ b':' ∷ dump_scalar v
dump_entries ((k, v) ∷ e ∷ m) =
    dump_scalar (str k) ++ b':' ∷ (dump_scalar v ++ b',' ∷ dump_entries (e ∷ m))

unfoldable pub dumps : List (Text × Scalar) → Text
unfolding dump_entries sort_keys
dumps m = b'{' ∷ (dump_entries (sort_keys m) ++ b'}' ∷ [])
