-- ===== src/Uploads/Interleaved/Slots/Exact.antt =====
-- The limiter counts exactly the requests between their `acquire` and their `release`.
use distributed_file_service.Prelude.{
  Bool, Bool-cases, Option, ap, arith, false, if◌then◌else◌, inl, inr, none, refl, some, suc, true,
  ℕ, ◌&&◌, ◌+◌, ◌∙◌, ◌≡◌, ◌≤◌,
}
use distributed_file_service.Prelude.Int.{pos_part}
use distributed_file_service.Text.{Text, text_eq, text_eq_iff}
use distributed_file_service.Exec.{Outcome, ok, raised}
use distributed_file_service.Models.{Upload, constraints_hold, is_completed, uploaded, Chunk}
use distributed_file_service.Limits
use distributed_file_service.Limits.Holders.{
  acquire-below-cap, cap, cap-acquire, cap-release, current-acquire, current-refused,
  current-release,
}
use distributed_file_service.World.{Service, World, integrity_error, open_session}
use distributed_file_service.Uploads.Persist.{Schedule, Stored, persist_with_retries}
use distributed_file_service.Uploads.Persist.Frame.{
  SameData, SameData-refl, persist_with_retries-frame,
}
use distributed_file_service.Uploads.ChunkUpload.{ChunkRequest, UploadChunkResponse, write_of}
use distributed_file_service.Uploads.Interleaved.Chunks.{
  ChunkPhase, admit, admitted, advance_chunk, after_acquire, after_persist, body_phase,
  chunk_answered, commit_chunk, holding, is_holding, looked_up, persisted, reading, try_commit,
}
use distributed_file_service.Uploads.Interleaved.Completion.{
  CompletePhase, advance_complete, assemble, assembled, complete_answered, counted, listed, loaded,
  next_phase,
}
use distributed_file_service.Uploads.Interleaved.Systems.{
  Thread, advance_thread, chunk_thread, complete_thread,
}
use distributed_file_service.Uploads.Interleaved.Tables.ChunkSteps.{admit-world}
use distributed_file_service.Uploads.Interleaved.Tables.CompleteSteps.{assemble-frame}
use distributed_file_service.Uploads.Interleaved.Slots.Handlers.{
  complete_again-limiter, mark_upload-limiter,
}

-- A request that holds a slot of the upload.
unfoldable pub holds_slot : Text → Thread → Bool
holds_slot id (chunk_thread s r phase) = text_eq r.upload_id id && is_holding phase
holds_slot id (complete_thread i key phase) = false

abbrev pub one : Text → Thread → ℕ
one id t = if holds_slot id t then 1 else 0

-- A step of a request that held `a` slots of an upload and now holds `b`.
pub record Slotted (l m : Limits.Limiter) (a b : Text → ℕ) : Type 0 where
  pub same_cap : cap m ≡ cap l
  pub balance :
      (id : Text)
      → a id ≤ Limits.current l id
      → Limits.current m id + a id ≡ Limits.current l id + b id
  pub bounded : (id : Text) → Limits.current l id ≤ cap l → Limits.current m id ≤ cap l

Slotted-same :
    (l m : Limits.Limiter) (a b : Text → ℕ) → m ≡ l → ((id : Text) → a id ≡ b id) → Slotted l m a b
Slotted-same l m a b e h =
    rw e (record { same_cap = refl; balance = λ id q. omega (arith, h id); bounded = λ id q. q })

abbrev slot : ChunkRequest → ChunkPhase → Text → ℕ
slot r phase id = if text_eq r.upload_id id && is_holding phase then 1 else 0

module _ (r : ChunkRequest) (l : Limits.Limiter) where
  released-Slotted :
      (a b : ChunkPhase)
      → is_holding a ≡ true
      → is_holding b ≡ false
      → Slotted l (Limits.release r.upload_id l) (slot r a) (slot r b)
  released-Slotted a b ha hb = record {
    same_cap = cap-release l r.upload_id;
    balance = λ id q. ground (arith, current-release l r.upload_id id, ha, hb, q);
    bounded = λ id q. ground (arith, current-release l r.upload_id id, q);
  }

  acquired-Slotted :
      (u : Upload) (o : Outcome (Unit {0})) (m : Limits.Limiter)
      → Limits.acquire r.upload_id l ≡ (o, m)
      → Slotted l m (slot r (admitted u)) (slot r (after_acquire u o))
  acquired-Slotted u (ok t) m e =
      let got : (Limits.acquire r.upload_id l).0 ≡ ok tt = ap (λ p. p.0) e in
      rw (← ap (λ (p : Outcome (Unit {0}) × Limits.Limiter). p.1) e) (record {
        same_cap = cap-acquire l r.upload_id;
        balance = λ id q. ground (arith, current-acquire l r.upload_id id got);
        bounded = λ id q. ground (
          arith,
          current-acquire l r.upload_id id got,
          acquire-below-cap l r.upload_id got,
          text_eq_iff r.upload_id id,
          q,
        );
      })
  acquired-Slotted u (raised x) m e =
      let refused : (Limits.acquire r.upload_id l).0 ≡ raised x = ap (λ p. p.0) e in
      rw (← ap (λ (p : Outcome (Unit {0}) × Limits.Limiter). p.1) e) (record {
        same_cap = cap-acquire l r.upload_id;
        balance = λ id q. ground (arith, current-refused l r.upload_id id x refused);
        bounded = λ id q. ground (arith, current-refused l r.upload_id id x refused, q);
      })

module _ {St Q : Type 0} (v : Service St Q) where
  after_persist-Slotted :
      (r : ChunkRequest) (u : Upload) (w : World St Q) (p : Outcome (Stored × ℕ) × World St Q)
      → SameData w p.1
      → Slotted w.limiter
          (after_persist u r.upload_id p).1.limiter
          (slot r (holding u))
          (slot r (after_persist u r.upload_id p).0)
  after_persist-Slotted r u w (ok (s, n), w₁) same =
      Slotted-same w.limiter w₁.limiter _ _ same.limiter (λ id. refl)
  after_persist-Slotted r u w (raised e, w₁) same =
      rw same.limiter
        (released-Slotted r w.limiter (holding u) (chunk_answered (raised e)) refl refl)

  try_commit-Slotted :
      (r : ChunkRequest) (u : Upload) (s : Stored) (n : ℕ) (e : Option Chunk) (w : World St Q)
      → Slotted w.limiter
          (try_commit v r u s n e w).1.limiter
          (slot r (looked_up u s n e))
          (slot r (try_commit v r u s n e w).0)
  unfolding try_commit
  try_commit-Slotted r u s n e w =
      elim (Bool-cases (
        constraints_hold
          (commit_chunk u e (write_of u r) (v.sha256 r.body) r.idempotency_key s n w.now w.db))) [
            | inl c ↦ rw c (
                released-Slotted r w.limiter (looked_up u s n e)
                  (chunk_answered (
                    ok (record {
                      upload_id = r.upload_id;
                      chunk_index = pos_part r.chunk_index;
                      status = uploaded;
                    })))
                  refl refl)
            | inr c ↦ rw c (
                released-Slotted r w.limiter (looked_up u s n e)
                  (chunk_answered (raised integrity_error)) refl refl)
          ]

  body_phase-slot :
      (r : ChunkRequest) (u : Upload) (o : Outcome (Option UploadChunkResponse)) (id : Text)
      → slot r (reading u) id ≡ slot r (body_phase u o) id
  body_phase-slot r u (ok none) id = refl
  body_phase-slot r u (ok (some out)) id = refl
  body_phase-slot r u (raised e) id = refl

  advance_chunk-Slotted :
      (schedule : Schedule) (r : ChunkRequest) (phase : ChunkPhase) (w : World St Q)
      → Slotted w.limiter
          (advance_chunk v schedule r phase w).1.limiter
          (slot r phase)
          (slot r (advance_chunk v schedule r phase w).0)
  unfolding advance_chunk
  advance_chunk-Slotted schedule r (reading u) w =
      Slotted-same w.limiter _ _ _ (ap (λ s. s.limiter) (admit-world v r (open_session w)))
        (body_phase-slot r u (admit v r (open_session w)).0)
  advance_chunk-Slotted schedule r (admitted u) w =
      acquired-Slotted r w.limiter u (Limits.acquire r.upload_id w.limiter).0
        (Limits.acquire r.upload_id w.limiter).1 refl
  advance_chunk-Slotted schedule r (holding u) w =
      after_persist-Slotted r u w
        (persist_with_retries (suc v.config.max_retries) v schedule 0 (write_of u r) w)
        ((persist_with_retries-frame (suc v.config.max_retries) v schedule 0 (write_of u r)).run w
          (SameData-refl w))
  advance_chunk-Slotted schedule r (persisted u s n) w =
      Slotted-same w.limiter w.limiter _ _ refl (λ id. refl)
  advance_chunk-Slotted schedule r (looked_up u s n e) w = try_commit-Slotted r u s n e w
  advance_chunk-Slotted schedule r (chunk_answered o) w =
      Slotted-same w.limiter w.limiter _ _ refl (λ id. refl)

  next_phase-limiter :
      {A : Type 0} (next : CompletePhase) (p : Outcome A × World St Q)
      → (next_phase next p).1.limiter ≡ p.1.limiter
  next_phase-limiter next (ok a, w) = refl
  next_phase-limiter next (raised e, w) = refl

  pub advance_complete-limiter :
      (id : Text) (key : Option Text) (phase : CompletePhase) (w : World St Q)
      → (advance_complete v id key phase w).1.limiter ≡ w.limiter
  unfolding advance_complete
  advance_complete-limiter id key (loaded u) w = elim (Bool-cases (is_completed u.status)) [
    | inl e ↦ rw e ((complete_again-limiter u _ key).run (open_session w) refl)
    | inr e ↦ rw e refl
  ]
  advance_complete-limiter id key (counted u) w = refl
  advance_complete-limiter id key (listed u cs) w =
      next_phase-limiter (assembled u) (assemble v u cs w)
      ∙ (assemble-frame v id key u cs w).limiter
  advance_complete-limiter id key (assembled u) w =
      (mark_upload-limiter u _ key).run (open_session w) refl
  advance_complete-limiter id key (complete_answered o) w = refl

  pub advance_thread-Slotted :
      (t : Thread) (w : World St Q)
      → Slotted w.limiter
          (advance_thread v t w).1.limiter
          (λ id. one id t)
          (λ id. one id (advance_thread v t w).0)
  unfolding advance_thread holds_slot
  advance_thread-Slotted (chunk_thread s r phase) w = advance_chunk-Slotted s r phase w
  advance_thread-Slotted (complete_thread id key phase) w =
      Slotted-same w.limiter _ _ _ (advance_complete-limiter id key phase w) (λ id. refl)
