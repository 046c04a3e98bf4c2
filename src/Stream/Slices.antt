-- ===== src/Stream/Slices.antt =====
-- The stream against the plain description: the bytes of the file from `start` to `end`.
use distributed_file_service.Prelude.{
  Bool-cases, List, [], ap, arith, concat, drop, drop-append, drop-nil, drop_all, inl, inr, leb,
  leb→lt, length, length-drop, ltb, ltb→le, ltb→lt, max, min, none, refl, suc, sym, take,
  take-append, take-nil, zero, ℕ, ◌++◌, ◌+◌, ◌-◌, ◌<◌, ◌∙◌, ◌∷◌, ◌≡◌, ◌≤◌,
}
use distributed_file_service.Text.{Bytes, Text}
use distributed_file_service.Exec.{Outcome, ok}
use distributed_file_service.Stream.{slice, stream, stream_bytes_for_range}

-- The store has, under each key in turn, these contents.
abbrev pub Reads : (Text → Outcome Bytes) → List Text → List Bytes → Type 0
Reads read [] [] = Unit
Reads read [] (b ∷ bs) = ⊥
Reads read (k ∷ ks) [] = ⊥
Reads read (k ∷ ks) (b ∷ bs) = (read k ≡ ok b) × Reads read ks bs

take-min_eq : (m n : ℕ) (b : Bytes) → min m (length b) ≡ min n (length b) → take m b ≡ take n b
take-min_eq m n [] h = take-nil m ∙ sym (take-nil n)
take-min_eq zero zero (x ∷ b) h = refl
take-min_eq zero (suc n) (x ∷ b) h = absurd (omega arith)
take-min_eq (suc m) zero (x ∷ b) h = absurd (omega arith)
take-min_eq (suc m) (suc n) (x ∷ b) h = ap (◌∷◌ x) (take-min_eq m n b (omega arith))

-- The part of one chunk, and of the chunks after it.
window : ℕ → ℕ → ℕ → Bytes → Bytes
window start end cursor bytes = take (end + 1 - max start cursor) (drop (start - cursor) bytes)

window-skip :
    (start end cursor : ℕ) (b rest : Bytes)
    → cursor + length b ≤ start
    → window start end cursor (b ++ rest) ≡ window start end (cursor + length b) rest
unfolding window
window-skip start end cursor b rest h =
    let e : start - cursor - length b ≡ start - (cursor + length b) = omega arith in
    let m : max start cursor ≡ max start (cursor + length b) = omega arith in
    rw (drop-append (start - cursor) b rest, drop_all (start - cursor) b (omega arith), e, m)

window-past :
    (start end cursor : ℕ) (b : Bytes) → start ≤ end → end < cursor → window start end cursor b ≡ []
unfolding window
window-past start end cursor b h k = let e : end + 1 - max start cursor ≡ 0 = omega arith in rw e

window-hit :
    (start end cursor : ℕ) (b rest : Bytes)
    → start ≤ end
    → cursor ≤ end
    → start < cursor + length b
    → window start end cursor (b ++ rest)
      ≡ slice (start - cursor) (min (length b) (end - cursor + 1)) b
        ++ window start end (cursor + length b) rest
unfolding window
window-hit start end cursor b rest h k l =
    let d = drop (start - cursor) b in
    let z : start - cursor - length b ≡ 0 = omega arith in
    let n : min (end + 1 - max start cursor) (length d)
        ≡ min (min (length b) (end - cursor + 1) - (start - cursor)) (length d) =
      omega (arith, length-drop (start - cursor) b) in
    let r : end + 1 - max start cursor - length d ≡ end + 1 - max start (cursor + length b) =
      omega (arith, length-drop (start - cursor) b) in
    let w : start - (cursor + length b) ≡ 0 = omega arith in
    rw
      (
        drop-append (start - cursor) b rest,
        z,
        w,
        take-append (end + 1 - max start cursor) d rest,
        r,
      )
      (ap (λ t. t ++ take (end + 1 - max start (cursor + length b)) rest) (take-min_eq _ _ d n))

window-nil : (start end cursor : ℕ) → window start end cursor [] ≡ []
unfolding window
window-nil start end cursor =
    rw (drop-nil {A = ℕ} (start - cursor)) (take-nil (end + 1 - max start cursor))

slice-nil : (first stop : ℕ) (b : Bytes) → stop ≤ first → slice first stop b ≡ []
slice-nil first stop b h = let e : stop - first ≡ 0 = omega arith in rw e

concat-stream :
    (read : Text → Outcome Bytes) (start end cursor : ℕ) (keys : List Text) (contents : List Bytes)
    → start ≤ end
    → Reads read keys contents
    → (concat (stream read start end cursor keys).blocks
        ≡ window start end cursor (concat contents))
      × ((stream read start end cursor keys).failure ≡ none)
unfolding stream concat
concat-stream read start end cursor [] [] h r = (sym (window-nil start end cursor), refl)
concat-stream read start end cursor [] (b ∷ bs) h r = absurd r
concat-stream read start end cursor (k ∷ ks) [] h r = absurd r
concat-stream read start end cursor (k ∷ ks) (b ∷ bs) h r =
    let ih = concat-stream read start end (cursor + length b) ks bs h r.1 in
    rw (r.0, stream)
      (elim (Bool-cases (leb (cursor + length b) start)) [
        | inl before ↦ rw before (ground (arith, ih, window-skip start end cursor b (concat bs)))
        | inr reached ↦ rw reached (elim (Bool-cases (ltb end cursor)) [
          | inl past ↦ rw past (sym (window-past start end cursor _ h (ltb→lt _ _ past)), refl)
          | inr inside ↦
              let hit =
                window-hit start end cursor b (concat bs) h (ltb→le _ _ inside)
                  (leb→lt _ _ reached) in
              let stop = min (length b) (end - cursor + 1) in
              let z : max 0 (start - cursor) ≡ start - cursor = omega arith in
              rw (inside, z)
                (elim (Bool-cases (ltb (start - cursor) stop)) [
                  | inl some_bytes ↦
                      rw some_bytes (ap (◌++◌ (slice (start - cursor) stop b)) ih.0 ∙ sym hit, ih.1)
                  | inr no_bytes ↦
                      rw (no_bytes, hit, slice-nil (start - cursor) stop b (ltb→le _ _ no_bytes)) ih
                ])
        ])
      ])

-- If the store has every chunk, the stream ends without an exception, and its blocks joined are the
-- bytes of the joined chunks from `start` to `end`, both included, as far as they go.
pub concat-stream_bytes_for_range :
    (read : Text → Outcome Bytes) (keys : List Text) (contents : List Bytes) (start end : ℕ)
    → start ≤ end
    → Reads read keys contents
    → (concat (stream_bytes_for_range read keys start end).blocks
        ≡ slice start (end + 1) (concat contents))
      × ((stream_bytes_for_range read keys start end).failure ≡ none)
unfolding stream_bytes_for_range window
concat-stream_bytes_for_range read keys contents start end h r =
    let e = concat-stream read start end 0 keys contents h r in
    let m : max start 0 ≡ start = omega arith in
    let z : start - 0 ≡ start = omega arith in (e.0 ∙ rw (m, z) refl, e.1)
