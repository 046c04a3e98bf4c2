-- ===== src/Tests/Headers.antt =====
-- Range headers and streams at concrete inputs.
use distributed_file_service.Text.Strip.{is_space}
use distributed_file_service.Range.Junk.{parse_range-junk}
use distributed_file_service.Prelude.{
  [], any, arith, concat, if◌then◌else◌, leb, ltb, none, refl, suc, zero, ◌&&◌, ◌∷◌, ◌≡◌,
}
use distributed_file_service.Text.{Bytes, Text, codes}
use distributed_file_service.Text.Decimal.{value}
use distributed_file_service.Exec.{Outcome, ok, raised, unhandled}
use distributed_file_service.Range.{out_of_bounds, parse_range, value_error}
use distributed_file_service.Range.RoundTrip.{
  IsNumeral, parse_range-numerals, parse_range-suffix, range_header,
}
use distributed_file_service.Stream.{slice, stream_bytes_for_range}
use distributed_file_service.Stream.Slices.{concat-stream_bytes_for_range}

twelve-IsNumeral : IsNumeral (codes "12")
twelve-IsNumeral = record {
  digits = ground arith;
  some_digit = omega arith;
  few_digits = ground arith;
}

thirty-IsNumeral : IsNumeral (codes "30")
thirty-IsNumeral = record {
  digits = ground arith;
  some_digit = omega arith;
  few_digits = ground arith;
}

parse_range-numerals_example : parse_range (range_header (codes "12") (codes "30")) 100 ≡ (
    if leb (value 0 (codes "12")) (value 0 (codes "30")) && ltb (value 0 (codes "30")) 100
    then ok (value 0 (codes "12"), value 0 (codes "30"))
    else raised out_of_bounds)
parse_range-numerals_example =
    parse_range-numerals (codes "12") (codes "30") 100 twelve-IsNumeral thirty-IsNumeral

-- The answer of the previous example, computed.
twelve_to_thirty : parse_range (range_header (codes "12") (codes "30")) 100 ≡ ok (12, 30)
unfolding value
twelve_to_thirty =
    parse_range-numerals (codes "12") (codes "30") 100 twelve-IsNumeral thirty-IsNumeral

parse_range-suffix_example :
    parse_range (range_header [] (codes "30")) 100 ≡ ok (0, value 0 (codes "30"))
parse_range-suffix_example =
    parse_range-suffix (codes "30") 100 thirty-IsNumeral (unfold value in omega arith)

parse_range-junk_example :
    parse_range (range_header (codes "12") (codes "3x")) 100 ≡ raised value_error
parse_range-junk_example =
    parse_range-junk (codes "12") (codes "3x") 100 twelve-IsNumeral (unfold any is_space in refl)

-- A store with two chunks, of three bytes and of two.
abbrev two_chunks : Text → Outcome Bytes
two_chunks (zero ∷ []) = ok (1 ∷ 2 ∷ 3 ∷ [])
two_chunks (suc zero ∷ []) = ok (4 ∷ 5 ∷ [])
two_chunks _ = raised (unhandled "FileNotFoundError")

concat-stream_bytes_for_range_example :
    (concat (stream_bytes_for_range two_chunks ((0 ∷ []) ∷ (1 ∷ []) ∷ []) 2 3).blocks
      ≡ slice 2 4 (concat ((1 ∷ 2 ∷ 3 ∷ []) ∷ (4 ∷ 5 ∷ []) ∷ [])))
    × ((stream_bytes_for_range two_chunks ((0 ∷ []) ∷ (1 ∷ []) ∷ []) 2 3).failure ≡ none)
concat-stream_bytes_for_range_example =
    concat-stream_bytes_for_range two_chunks ((0 ∷ []) ∷ (1 ∷ []) ∷ [])
      ((1 ∷ 2 ∷ 3 ∷ []) ∷ (4 ∷ 5 ∷ []) ∷ []) 2 3 (omega arith) (refl, (refl, tt))
