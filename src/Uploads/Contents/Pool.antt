-- ===== src/Uploads/Contents/Pool.antt =====
-- Storing the bytes of a chunk on the worker pool in the files of `LocalChunkStorage`.
use distributed_file_service.Prelude.{
  Bool-cases, arith, false, inl, inr, ltb, none, refl, suc, zero, ℕ, ◌+◌, ◌≡◌, ◌⊎◌,
}
use distributed_file_service.Text.{Bytes, Text}
use distributed_file_service.Exec.{Error, Exec, Outcome, http, ok, raised, unhandled}
use distributed_file_service.Exec.Cases.{run_cases}
use distributed_file_service.Dict.{insert}
use distributed_file_service.Config.{Settings, use_external_durable_queue}
use distributed_file_service.Worker.{submit}
use distributed_file_service.DurableQueue.{DurableQueue}
use distributed_file_service.Storage.{chunk_key}
use distributed_file_service.Storage.Local.{Files, write_chunk}
use distributed_file_service.World.{World}
use distributed_file_service.Uploads.Persist.{
  ChunkWrite, Schedule, Stored, after_attempt, count_retry, persist_chunk, persist_once,
  persist_with_retries, run_on_pool, too_many_rounds,
}
use distributed_file_service.Uploads.Contents.{on_disk}

-- Either it raised and wrote nothing, or the file is there and the object has the chunk's key.
abbrev pub Persisted :
    {Q A : Type 0}
    → (Stored → Outcome A → Type 0)
    → ChunkWrite
    → Files
    → Outcome A × World Files Q
    → Type 0
Persisted is_answer c files p =
    ((p.1.store ≡ files) × (e : Error) × (p.0 ≡ raised e))
    ⊎ ((p.1.store ≡ insert (chunk_key c.upload_id c.chunk_index) c.bytes files)
        × is_answer (chunk_key c.upload_id c.chunk_index, none) p.0)

module _ {Q : Type 0} (config : Settings) (queue : DurableQueue Q) (sha256 : Bytes → Text)
    (schedule : Schedule) (on_pool : use_external_durable_queue config ≡ false) where
  run_on_pool-Persisted :
      (c : ChunkWrite) (w : World Files Q)
      → Persisted
          (λ s o. o ≡ ok s)
          c
          w.store
          (run_on_pool (persist_chunk (on_disk config queue sha256) c) w)
  unfolding run_on_pool persist_chunk write_chunk
  run_on_pool-Persisted c w = elim (run_cases (submit w.executor)) [
    | inl (t, b, e) ↦ rw e (inr (refl, refl))
    | inr (x, b, e) ↦ rw e (inl (refl, x, refl))
  ]

  persist_once-Persisted :
      (retries : ℕ) (c : ChunkWrite) (w : World Files Q)
      → Persisted
          (λ s o. o ≡ ok s)
          c
          w.store
          (persist_once (on_disk config queue sha256) schedule retries c w)
  unfolding persist_once
  persist_once-Persisted retries c w = rw on_pool (run_on_pool-Persisted c w)

  after_attempt-Persisted :
      (limit retries : ℕ) (c : ChunkWrite) (files : Files)
      (again : Exec (World Files Q) (Stored × ℕ)) (p : Outcome Stored × World Files Q)
      → Persisted (λ s o. o ≡ ok s) c files p
      → ((w : World Files Q) → Persisted (λ s o. (n : ℕ) × (o ≡ ok (s, n))) c w.store (again w))
      → Persisted (λ s o. (n : ℕ) × (o ≡ ok (s, n))) c files (after_attempt limit retries again p)
  unfolding after_attempt
  after_attempt-Persisted limit retries c files again (ok s, w) (inl (same, e, x)) k =
      absurd (ground (arith, x))
  after_attempt-Persisted limit retries c files again (ok s, w) (inr (put, x)) k =
      inr (put, (retries, ground (arith, x)))
  after_attempt-Persisted limit retries c files again (raised (http e), w) (inl (same, y, x)) k =
      inl (same, http e, refl)
  after_attempt-Persisted limit retries c files again (raised e, w) (inr (put, x)) k =
      absurd (ground (arith, x))
  after_attempt-Persisted limit retries c files again (raised (unhandled text), w)
        (inl (same, y, x)) k =
      elim (Bool-cases (ltb limit (retries + 1))) [
        | inl e ↦ rw e (inl (same, _, refl))
        | inr e ↦ rw (e, ← same) (k (count_retry w))
      ]

  pub persist_with_retries-Persisted :
      (fuel retries : ℕ) (c : ChunkWrite) (w : World Files Q)
      → Persisted
          (λ s o. (n : ℕ) × (o ≡ ok (s, n)))
          c
          w.store
          (persist_with_retries fuel (on_disk config queue sha256) schedule retries c w)
  unfolding persist_with_retries
  persist_with_retries-Persisted zero retries c w = inl (refl, too_many_rounds, refl)
  persist_with_retries-Persisted (suc fuel) retries c w =
      after_attempt-Persisted config.max_retries retries c w.store _ _
        (persist_once-Persisted retries c w) (persist_with_retries-Persisted fuel (retries + 1) c)
