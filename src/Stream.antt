-- ===== src/Stream.antt =====
-- `_stream_bytes_for_range` of app/main.py: a generator that reads chunk after chunk from the store
-- and yields the part of each that lies in the range.
pub mod Slices
use distributed_file_service.Prelude.{
  List, Option, [], drop, if◌then◌else◌, leb, length, ltb, max, min, none, some, take, ℕ, ◌+◌, ◌-◌,
  ◌∷◌,
}
use distributed_file_service.Text.{Bytes, Text}
use distributed_file_service.Exec.{Error, Outcome, ok, raised}

-- What a generator has yielded, and the exception that ended it, if one did.
pub record Streamed : Type 0 where
  pub blocks : List Bytes
  pub failure : Option Error

abbrev finished : Streamed
finished = record { blocks = []; failure = none }

abbrev yields : Bytes → Streamed → Streamed
yields block rest = record rest { blocks = block ∷ rest.blocks }

-- `data[first : stop]`.
abbrev pub slice : ℕ → ℕ → Bytes → Bytes
slice first stop bytes = take (stop - first) (drop first bytes)

-- `read_end + 1` of the source is `stop` here, so that it is not negative for an empty chunk.
unfoldable pub stream : (Text → Outcome Bytes) → ℕ → ℕ → ℕ → List Text → Streamed
stream read start end cursor [] = finished
stream read start end cursor (key ∷ keys) = elim (read key) [
  | raised e ↦ record { blocks = []; failure = some e }
  | ok bytes ↦
      let next_cursor = cursor + length bytes in
      let rest = stream read start end next_cursor keys in
      let read_start = max 0 (start - cursor) in
      let stop = min (length bytes) (end - cursor + 1) in
      if leb next_cursor start
      then rest
      else if ltb end cursor
      then finished
      else if ltb read_start stop
      then yields (slice read_start stop bytes) rest
      else rest
]

-- `_stream_bytes_for_range(chunks, start, end)`.
unfoldable pub stream_bytes_for_range : (Text → Outcome Bytes) → List Text → ℕ → ℕ → Streamed
unfolding stream
stream_bytes_for_range read keys start end = stream read start end 0 keys
