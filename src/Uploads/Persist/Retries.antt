-- ===== src/Uploads/Persist/Retries.antt =====
-- The retry loop of `upload_chunk`: how many attempts it makes, and how it ends.
use Prim.Native.String.{String}
use distributed_file_service.Prelude.{
  Bool-cases, arith, false, inl, inr, ltb, suc, tests, zero, ℕ, ◌+◌, ◌<◌, ◌≡◌, ◌≢◌, ◌≤◌,
}
use distributed_file_service.Exec.{Exec, Outcome, http, ok, raised, unhandled}
use distributed_file_service.World.{Service, World}
use distributed_file_service.Uploads.Persist.{
  ChunkWrite, Schedule, Stored, after_attempt, count_retry, persist_once, persist_with_retries,
}

module _ {St Q : Type 0} (v : Service St Q) (schedule : Schedule) (c : ChunkWrite) where
  -- `n` attempts in a row, the first one numbered `r`, that each fail with an exception which is no
  -- HTTPException; the world before the first and after the last of them.
  pub data Fails : ℕ → ℕ → World St Q → World St Q → Type 0 where
    no_failure : (r : ℕ) (w : World St Q) → Fails r 0 w w
    fails :
        {n : ℕ} {w'' : World St Q} (r : ℕ) (w w' : World St Q) (text : String)
        → persist_once v schedule r c w ≡ (raised (unhandled text), w')
        → Fails (r + 1) n (count_retry w') w''
        → Fails r (suc n) w w''

  room : (m r n : ℕ) → r + suc n ≤ m → ltb m (r + 1) ≡ false
  room m r n h = ground arith

  retry_success :
      (fuel : ℕ) {r n : ℕ} {w w' : World St Q} (stored : Stored) (w'' : World St Q)
      → Fails r n w w'
      → n < fuel
      → r + n ≤ v.config.max_retries
      → persist_once v schedule (r + n) c w' ≡ (ok stored, w'')
      → persist_with_retries fuel v schedule r c w ≡ (ok (stored, r + n), w'')
  unfolding persist_with_retries after_attempt
  retry_success zero stored w'' f h k e = absurd (omega arith)
  retry_success (suc fuel) stored w'' (no_failure r w) h k e =
      let z : r + 0 ≡ r = omega arith in rw z (rw (rw z at e))
  retry_success (suc fuel) stored w'' (fails {n} r w w' text step f) h k e =
      let z : r + suc n ≡ r + 1 + n = omega arith in
      rw (step, z, room v.config.max_retries r n k)
        (retry_success fuel stored w'' f (omega arith) (omega arith) (rw z at e))

  after_attempt-http :
      (m r : ℕ) (again : Exec (World St Q) (Stored × ℕ)) (p : Outcome Stored × World St Q)
      (text : String)
      → (r < m → (w : World St Q) → (again w).0 ≢ raised (unhandled text))
      → r ≤ m
      → (after_attempt m r again p).0 ≢ raised (unhandled text)
  unfolding after_attempt
  after_attempt-http m r again (ok stored, w) text k h e = cc
  after_attempt-http m r again (raised (http x), w) text k h e = cc
  after_attempt-http m r again (raised (unhandled t), w) text k h e =
      elim (Bool-cases (ltb m (r + 1))) [
        | inl past ↦ let e' = rw past at e in cc
        | inr room ↦ k (omega (tests, room)) _ (rw room at e)
      ]

  loop_ends :
      (fuel retries : ℕ) (w : World St Q) (text : String)
      → fuel + retries ≡ suc v.config.max_retries
      → retries ≤ v.config.max_retries
      → (persist_with_retries fuel v schedule retries c w).0 ≢ raised (unhandled text)
  unfolding persist_with_retries
  loop_ends zero retries w text h k e = absurd (omega arith)
  loop_ends (suc fuel) retries w text h k e =
      after_attempt-http v.config.max_retries retries
        (persist_with_retries fuel v schedule (retries + 1) c) (persist_once v schedule retries c w)
        text (λ more w'. loop_ends fuel (retries + 1) w' text (omega arith) (omega arith)) k e

  -- After `n` failing attempts, at most `max_retries`, and one that succeeds, the loop returns the
  -- stored object with `n` as its retry count, in the world that the last attempt left.
  pub persist_with_retries_success :
      (n : ℕ) {w w' : World St Q} (stored : Stored) (w'' : World St Q)
      → Fails 0 n w w'
      → n ≤ v.config.max_retries
      → persist_once v schedule n c w' ≡ (ok stored, w'')
      → persist_with_retries (suc v.config.max_retries) v schedule 0 c w ≡ (ok (stored, n), w'')
  persist_with_retries_success n stored w'' f h e =
      let z : 0 + n ≡ n = omega arith in
      rw z at (
        retry_success (suc v.config.max_retries) stored w'' f (omega arith) (omega arith)
          (rw (← z) at e))

  -- The fuel of one attempt more than `max_retries` is enough: whatever the store and the queue do,
  -- the loop returns or raises an HTTPException.
  pub persist_with_retries_total :
      (w : World St Q) (text : String)
      → (persist_with_retries (suc v.config.max_retries) v schedule 0 c w).0
        ≢ raised (unhandled text)
  persist_with_retries_total w text =
      loop_ends (suc v.config.max_retries) 0 w text (omega arith) (omega arith)
