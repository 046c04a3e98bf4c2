-- ===== src/Uploads/Interleaved/OneProcess/Free.antt =====
-- In one process no request on a chunk finds a slot taken.
use distributed_file_service.Prelude.{
  All, Bool-cases, List, Option, [], arith, find, inl, inr, none, refl, some, suc, true, zero, ℕ,
  ◌<◌, ◌∙◌, ◌∷◌, ◌≡◌,
}
use distributed_file_service.Prelude.Int.{pos_part}
use distributed_file_service.Exec.{Outcome, ok, raised}
use distributed_file_service.Models.{Upload, constraints_hold, is_chunk, Chunk}
use distributed_file_service.Text.{Text}
use distributed_file_service.Limits
use distributed_file_service.Limits.Holders.{cap}
use distributed_file_service.World.{AuthUser, Service, World, open_session, or_run}
use distributed_file_service.Uploads.Persist.{Schedule, Stored, persist_with_retries}
use distributed_file_service.Uploads.Persist.Frame.{
  SameData, SameData-refl, persist_with_retries-frame,
}
use distributed_file_service.Uploads.ChunkUpload.{
  ChunkRequest, UploadChunkResponse, limited, store_and_record, upload_chunk, write_of,
}
use distributed_file_service.Uploads.ChunkUpload.Slots.{store_and_record-limiter}
use distributed_file_service.Uploads.Serve.{Request, chunk, complete, fetch, handle, init, missing}
use distributed_file_service.Uploads.Interleaved.Chunks.{
  ChunkPhase, admit, admitted, advance_chunk, after_persist, body_phase, chunk_answered,
  commit_chunk, holding, load_for_chunk, looked_up, persisted, reading, target_phase, try_commit,
}
use distributed_file_service.Uploads.Interleaved.Systems.{
  Event, System, Thread, advances, chunk_comes, chunk_thread, clock_shows, complete_comes,
  complete_thread, other_comes, step,
}
use distributed_file_service.Uploads.Interleaved.Tables.ChunkSteps.{admit-world}
use distributed_file_service.Uploads.Interleaved.Slots.Handlers.{
  complete_upload-limiter, download-limiter, init_upload-limiter, missing_chunks-limiter,
}
use distributed_file_service.Uploads.Interleaved.Slots.Exact.{advance_complete-limiter}
use distributed_file_service.Uploads.Interleaved.Slots.Runs.{load-limiter, load_for_chunk-limiter}
use distributed_file_service.Uploads.Access.Cases.{get_owned_cases}
use distributed_file_service.Uploads.ChunkUpload.Checks.{check_chunk_cases, chunk_replay_cases}
use distributed_file_service.Uploads.Interleaved.OneProcess.{
  IsFree, IsFree-IsUnused, IsUnused, IsUnused-refl, IsUnused-same, IsUnused-trans, acquire-free,
  answer_chunk, is_idle, resume, resume_at, turn, turns,
}

module _ {St Q : Type 0} (v : Service St Q) where
  -- The limiter is free again, and the thread waits for a body or is answered.
  abbrev Ended : Schedule → ChunkRequest → World St Q → ChunkPhase × World St Q → Type 0
  Ended schedule r w p =
      IsUnused w.limiter p.1.limiter × (is_idle (chunk_thread schedule r p.0) ≡ true)

  module _ (schedule : Schedule) (r : ChunkRequest) where
    -- The last step gives the slot back.
    try_commit-released :
        (u : Upload) (s : Stored) (n : ℕ) (e : Option Chunk) (w : World St Q)
        → ((try_commit v r u s n e w).1.limiter ≡ Limits.release r.upload_id w.limiter)
          × (is_idle (chunk_thread schedule r (try_commit v r u s n e w).0) ≡ true)
    unfolding try_commit
    try_commit-released u s n e w =
        elim (Bool-cases (
          constraints_hold
            (commit_chunk u e (write_of u r) (v.sha256 r.body) r.idempotency_key s n w.now w.db))) [
              | inl c ↦ rw c (refl, refl)
              | inr c ↦ rw c (refl, refl)
            ]

    persisted-released :
        (u : Upload) (w : World St Q) (p : Outcome (Stored × ℕ) × World St Q)
        → SameData w p.1
        → let (p₁, w₁) = after_persist u r.upload_id p in
          let (p₂, w₂) = advance_chunk v schedule r p₁ w₁ in
          let (p₃, w₃) = advance_chunk v schedule r p₂ w₂ in
          (w₃.limiter ≡ Limits.release r.upload_id w.limiter)
          × (is_idle (chunk_thread schedule r p₃) ≡ true)
    unfolding advance_chunk
    persisted-released u w (raised x, w₁) same = rw same.limiter (refl, refl)
    persisted-released u w (ok (s, n), w₁) same = rw (← same.limiter) (
        try_commit-released u s n
          (find (is_chunk r.upload_id (pos_part r.chunk_index)) w₁.db.chunks) w₁)

    admitted-Ended :
        (u : Upload) (w : World St Q)
        → IsFree w.limiter
        → let (p₁, w₁) = advance_chunk v schedule r (admitted u) w in
          let (p₂, w₂) = advance_chunk v schedule r p₁ w₁ in
          let (p₃, w₃) = advance_chunk v schedule r p₂ w₂ in
          Ended schedule r w (advance_chunk v schedule r p₃ w₃)
    unfolding advance_chunk
    admitted-Ended u w free =
        let (got, after) = acquire-free w.limiter r.upload_id free in
        let w₁ : World St Q = record w { limiter = (Limits.acquire r.upload_id w.limiter).1 } in
        let (a, b) =
          persisted-released u w₁
            (persist_with_retries (suc v.config.max_retries) v schedule 0 (write_of u r) w₁)
            ((persist_with_retries-frame (suc v.config.max_retries) v schedule 0 (write_of u r)).run
              w₁ (SameData-refl w₁)) in
        rw (got, a) (after, b)

    body-Ended :
        (u : Upload) (o : Outcome (Option UploadChunkResponse)) (w : World St Q)
        → IsFree w.limiter
        → let (p₁, w₁) = advance_chunk v schedule r (body_phase u o) w in
          let (p₂, w₂) = advance_chunk v schedule r p₁ w₁ in
          let (p₃, w₃) = advance_chunk v schedule r p₂ w₂ in
          Ended schedule r w (advance_chunk v schedule r p₃ w₃)
    unfolding advance_chunk
    body-Ended u (ok none) w free = unfold advance_chunk in admitted-Ended u w free
    body-Ended u (ok (some out)) w free = (IsUnused-refl w.limiter, refl)
    body-Ended u (raised e) w free = (IsUnused-refl w.limiter, refl)

    answer_chunk-Ended :
        (phase : ChunkPhase) (w : World St Q)
        → is_idle (chunk_thread schedule r phase) ≡ true
        → IsFree w.limiter
        → Ended schedule r w (answer_chunk v schedule r phase w)
    unfolding answer_chunk advance_chunk
    answer_chunk-Ended (reading u) w idle free =
        rw (admit-world v r (open_session w)) (
          unfold advance_chunk in body-Ended u (admit v r (open_session w)).0 (open_session w) free)
    answer_chunk-Ended (admitted u) w idle free = absurd (ground (arith, idle))
    answer_chunk-Ended (holding u) w idle free = absurd (ground (arith, idle))
    answer_chunk-Ended (persisted u s n) w idle free = absurd (ground (arith, idle))
    answer_chunk-Ended (looked_up u s n e) w idle free = absurd (ground (arith, idle))
    answer_chunk-Ended (chunk_answered o) w idle free = (IsUnused-refl w.limiter, refl)

    -- A request that runs from its beginning to its end at once.
    limited-IsUnused :
        (o : Option UploadChunkResponse) (u : Upload) (w : World St Q)
        → IsFree w.limiter
        → IsUnused w.limiter
            (or_run o
              (limited r.upload_id
                (store_and_record v schedule (write_of u r) (v.sha256 r.body) r.idempotency_key))
              w).1.limiter
    unfolding limited
    limited-IsUnused (some out) u w free = IsUnused-refl w.limiter
    limited-IsUnused none u w free =
        let (got, after) = acquire-free w.limiter r.upload_id free in
        let w₁ : World St Q = record w { limiter = (Limits.acquire r.upload_id w.limiter).1 } in
        rw (got, store_and_record-limiter v schedule r u w₁) after

    upload_chunk-IsUnused :
        (user : AuthUser) (w : World St Q)
        → IsFree w.limiter
        → IsUnused w.limiter (upload_chunk v schedule r user w).1.limiter
    unfolding upload_chunk
    upload_chunk-IsUnused user w free =
        get_owned_cases (λ p. IsUnused w.limiter p.1.limiter) r.upload_id user _ w
          (λ u found own.
            check_chunk_cases (λ p. IsUnused w.limiter p.1.limiter) v u r _ w
              (λ a.
                chunk_replay_cases (λ p. IsUnused w.limiter p.1.limiter) r.upload_id
                  (pos_part r.chunk_index) (v.sha256 r.body) r.idempotency_key _ w
                  (λ o. limited-IsUnused o u w free) (λ e. IsUnused-refl w.limiter))
              (λ e. IsUnused-refl w.limiter))
          (λ e. IsUnused-refl w.limiter)

  handle-IsUnused :
      (user : AuthUser) (q : Request) (w : World St Q)
      → IsFree w.limiter
      → IsUnused w.limiter (handle v user q w).limiter
  unfolding handle
  handle-IsUnused user (init id payload key) w free =
      IsUnused-same _ _ ((init_upload-limiter v id payload key user).run w refl)
  handle-IsUnused user (chunk schedule r) w free = upload_chunk-IsUnused schedule r user w free
  handle-IsUnused user (complete id key) w free =
      IsUnused-same _ _ ((complete_upload-limiter v id key user).run w refl)
  handle-IsUnused user (missing id) w free =
      IsUnused-same _ _ ((missing_chunks-limiter id user).run w refl)
  handle-IsUnused user (fetch id range) w free =
      IsUnused-same _ _ ((download-limiter v id range user).run w refl)

  abbrev AllIdle : List Thread → Type 0
  AllIdle = All (λ t. is_idle t ≡ true)

  resume-Ended :
      (t : Thread) (w : World St Q)
      → is_idle t ≡ true
      → IsFree w.limiter
      → IsUnused w.limiter (resume v t w).1.limiter × (is_idle (resume v t w).0 ≡ true)
  unfolding resume
  resume-Ended (chunk_thread schedule r phase) w idle free =
      answer_chunk-Ended schedule r phase w idle free
  resume-Ended (complete_thread id key phase) w idle free =
      (IsUnused-same _ _ (advance_complete-limiter v id key phase w), refl)

  resume_at-Ended :
      (n : ℕ) (ts : List Thread) (w : World St Q)
      → AllIdle ts
      → IsFree w.limiter
      → IsUnused w.limiter (resume_at v n ts w).1.limiter × AllIdle (resume_at v n ts w).0
  unfolding resume_at
  resume_at-Ended n [] w idle free = (IsUnused-refl w.limiter, tt)
  resume_at-Ended zero (t ∷ ts) w idle free =
      let (a, b) = resume-Ended t w idle.0 free in (a, (b, idle.1))
  resume_at-Ended (suc n) (t ∷ ts) w idle free =
      let (a, b) = resume_at-Ended n ts w idle.1 free in (a, (idle.0, b))

  target_phase-idle :
      (schedule : Schedule) (r : ChunkRequest) (o : Outcome Upload)
      → is_idle (chunk_thread schedule r (target_phase o)) ≡ true
  target_phase-idle schedule r (ok u) = refl
  target_phase-idle schedule r (raised e) = refl

  turn-Ended :
      (e : Event) (s : System St Q)
      → AllIdle s.threads
      → IsFree s.world.limiter
      → IsUnused s.world.limiter (turn v e s).world.limiter × AllIdle (turn v e s).threads
  unfolding turn step
  turn-Ended (chunk_comes schedule r user) s idle free = (
    IsUnused-same _ _ (load_for_chunk-limiter v r user (open_session s.world)),
    (target_phase-idle schedule r (load_for_chunk r user (open_session s.world)).0, idle),
  )
  turn-Ended (complete_comes id key user) s idle free =
      (IsUnused-same _ _ (load-limiter v id key user (open_session s.world)), (refl, idle))
  turn-Ended (other_comes request user) s idle free =
      (handle-IsUnused user request (open_session s.world) free, idle)
  turn-Ended (advances n) s idle free = resume_at-Ended n s.threads s.world idle free
  turn-Ended (clock_shows time) s idle free = (IsUnused-refl s.world.limiter, idle)

  turns-Ended :
      (es : List Event) (s : System St Q)
      → AllIdle s.threads
      → IsFree s.world.limiter
      → IsUnused s.world.limiter (turns v es s).world.limiter
  unfolding turns
  turns-Ended [] s idle free = IsUnused-refl s.world.limiter
  turns-Ended (e ∷ es) s idle free =
      let (a, b) = turn-Ended e s idle free in
      IsUnused-trans a (turns-Ended es (turn v e s) b (IsFree-IsUnused a free))

  -- In one process, where a request on a chunk runs from its body to its answer before another one
  -- goes on, a limiter that begins with no slot in use and lets at least one request of each upload
  -- through never refuses a request, whatever requests come: its limits have no effect.
  pub turns-none_refused :
      (es : List Event) (w : World St Q)
      → ((id : Text) → Limits.current w.limiter id ≡ 0)
      → 0 < cap w.limiter
      → let l = (turns v es (record { world = w; threads = [] })).world.limiter in
        (l.throttled_requests_total ≡ w.limiter.throttled_requests_total)
        × ((id : Text) → Limits.current l id ≡ 0)
  turns-none_refused es w none_held room =
      let free : IsFree w.limiter = record { no_holder = none_held; has_room = room } in
      let a = turns-Ended es (record { world = w; threads = [] }) tt free in
      (a.none_refused, λ id. a.same_current id ∙ none_held id)
