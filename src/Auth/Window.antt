-- ===== src/Auth/Window.antt =====
-- `ApiKeyRateLimiter.allow` against the log of the requests that it accepted.
use distributed_file_service.Prelude.{
  All, Bool-cases, List, [], ap, arith, count, if◌then◌else◌, inl, inr, leb, leb→lt, length,
  length-append, not, refl, select, subst, sym, ℕ, ◌&&◌, ◌++◌, ◌<◌, ◌∙◌, ◌∷◌, ◌≡◌, ◌≤◌,
}
use distributed_file_service.Text.{Text, text_eq, text_eq_iff}
use distributed_file_service.Dict.{lookup, lookup-insert}
use distributed_file_service.Models.Rows.{All-append, All-map, length-select}
use distributed_file_service.Auth.{Events, allow, bucket_of, drop_old}
use distributed_file_service.Auth.Buckets.{
  All-select, Sorted, Sorted-append, Sorted-select, count-le-length, drop_old-select, recent,
  select-append, select-select,
}

-- One call of `allow`.
pub record Attempt : Type 0 where
  pub key : Text
  pub now : ℕ

-- In the order of time, from `last` on.
abbrev pub Ordered : ℕ → List Attempt → Type 0
Ordered last [] = Unit
Ordered last (a ∷ rest) = (last ≤ a.now) × Ordered a.now rest

module _ (key : Text) (limit window : ℕ) where
  -- The times of the accepted requests of the key, and the events.
  pub record Run : Type 0 where
    pub log : List ℕ
    pub events : Events

  abbrev pub attempt : Attempt → Run → Run
  attempt a r =
      let o = allow a.key limit window a.now r.events in
      record { log = if text_eq a.key key && o.0 then r.log ++ a.now ∷ [] else r.log; events = o.1 }

  unfoldable pub attempts : List Attempt → Run → Run
  attempts [] r = r
  attempts (a ∷ rest) r = attempts rest (attempt a r)

  -- What a bucket keeps of the log, after the attempts up to `last`.
  record Tracks (last : ℕ) (log bucket : List ℕ) : Type 0 where
    sorted : Sorted bucket
    past : All (λ u. u ≤ last) bucket
    short : length bucket ≤ limit
    agrees : (n : ℕ) → last ≤ n → select (recent window n) log ≡ select (recent window n) bucket

  later-Tracks :
      (last now : ℕ) (log bucket : List ℕ)
      → last ≤ now
      → Tracks last log bucket
      → Tracks now log bucket
  later-Tracks last now log bucket h t = record {
    sorted = t.sorted;
    past =
        All-map {P = λ u. u ≤ last} {R = λ u. u ≤ now} bucket (λ u k. omega (arith, h, k)) t.past;
    short = t.short;
    agrees = λ n k. t.agrees n (omega (arith, h, k));
  }

  drop-Tracks :
      (now : ℕ) (log bucket : List ℕ)
      → Tracks now log bucket
      → Tracks now log (drop_old now window bucket)
  drop-Tracks now log bucket t =
      let p = recent window now in
      rw (drop_old-select now window bucket t.sorted) (record {
        sorted = Sorted-select p bucket t.sorted;
        past = All-select (λ u. u ≤ now) p bucket t.past;
        short = omega (arith, length-select p bucket, count-le-length p bucket, t.short);
        agrees = λ n k. t.agrees n k ∙ sym (select-select window now n bucket k);
      })

  add-Tracks :
      (now : ℕ) (log bucket : List ℕ)
      → length bucket < limit
      → Tracks now log bucket
      → Tracks now (log ++ now ∷ []) (bucket ++ now ∷ [])
  add-Tracks now log bucket h t = record {
    sorted = Sorted-append bucket now t.sorted t.past;
    past = All-append (λ u. u ≤ now) bucket (now ∷ []) t.past (omega arith, tt);
    short = omega (arith, length-append bucket (now ∷ []), h);
    agrees = λ n k.
        rw
          (
            select-append (recent window n) log (now ∷ []),
            select-append (recent window n) bucket (now ∷ []),
            t.agrees n k,
          )
          refl;
  }

  -- What a call makes of the bucket of the key.
  bucket-allow :
      (k : Text) (now : ℕ) (events : Events)
      → 0 < limit
      → let b = drop_old now window (bucket_of k events) in
        bucket_of key (allow k limit window now events).1 ≡ (
          if text_eq k key
          then (if leb limit (length b) then b else b ++ now ∷ [])
          else bucket_of key events)
  unfolding allow
  bucket-allow k now events pos =
      let b = drop_old now window (bucket_of k events) in
      ground (
        arith,
        lookup-insert k key b events,
        lookup-insert k key (b ++ now ∷ []) events,
        text_eq_iff k key,
      )

  allow-result :
      (k : Text) (now : ℕ) (events : Events)
      → 0 < limit
      → (allow k limit window now events).0
        ≡ not (leb limit (length (drop_old now window (bucket_of k events))))
  unfolding allow
  allow-result k now events pos = ground arith

  attempt-Tracks :
      (a : Attempt) (r : Run) (last : ℕ)
      → 0 < limit
      → last ≤ a.now
      → Tracks last r.log (bucket_of key r.events)
      → Tracks a.now (attempt a r).log (bucket_of key (attempt a r).events)
  attempt-Tracks a r last pos h t =
      let now = a.now in
      let u = later-Tracks last now r.log (bucket_of key r.events) h t in
      elim (Bool-cases (text_eq a.key key)) [
        | inr other ↦ rw (bucket-allow a.key now r.events pos, other) u
        | inl own ↦
            let same : a.key ≡ key = (text_eq_iff a.key key).0 own in
            let mine = subst (λ k. Tracks now r.log (bucket_of k r.events)) (sym same) u in
            let d = drop-Tracks now r.log (bucket_of a.key r.events) mine in
            elim (Bool-cases
              (leb limit (length (drop_old now window (bucket_of a.key r.events))))) [
                | inl full ↦
                    rw
                      (
                        bucket-allow a.key now r.events pos,
                        allow-result a.key now r.events pos,
                        own,
                        full,
                      )
                      d
                | inr room ↦
                    rw
                      (
                        bucket-allow a.key now r.events pos,
                        allow-result a.key now r.events pos,
                        own,
                        room,
                      )
                      (add-Tracks now r.log (drop_old now window (bucket_of a.key r.events))
                        (leb→lt limit _ room) d)
              ]
      ]

  attempts-bound :
      (calls : List Attempt) (r : Run) (last n : ℕ)
      → 0 < limit
      → Ordered last calls
      → last ≤ n
      → All (λ a. a.now ≤ n) calls
      → Tracks last r.log (bucket_of key r.events)
      → count (recent window n) (attempts calls r).log ≤ limit
  unfolding attempts
  attempts-bound [] r last n pos o h e t =
      let p = recent window n in
      let b = bucket_of key r.events in
      omega (
        arith,
        length-select p r.log,
        ap length (t.agrees n h),
        length-select p b,
        count-le-length p b,
        t.short,
      )
  attempts-bound (a ∷ rest) r last n pos o h e t =
      attempts-bound rest (attempt a r) a.now n pos o.1 e.0 e.1 (attempt-Tracks a r last pos o.0 t)

  -- With a positive limit, among the attempts on all keys in the order of time, from a new limiter:
  -- at any time at or after the last of them, at most `limit` of the accepted ones of a key were made
  -- less than `window` before or exactly `window` before.
  pub attempts-le-limit :
      (calls : List Attempt) (n : ℕ)
      → 0 < limit
      → Ordered 0 calls
      → All (λ a. a.now ≤ n) calls
      → count (recent window n) (attempts calls (record { log = []; events = [] })).log ≤ limit
  unfolding lookup
  attempts-le-limit calls n pos o e =
      attempts-bound calls (record { log = []; events = [] }) 0 n pos o (omega arith) e
        (record { sorted = tt; past = tt; short = omega arith; agrees = λ n h. refl })
