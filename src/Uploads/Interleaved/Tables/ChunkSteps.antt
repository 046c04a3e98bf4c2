-- ===== src/Uploads/Interleaved/Tables/ChunkSteps.antt =====
-- The steps of a request on a chunk keep the tables sound.
use distributed_file_service.Prelude.{
  Bool-cases, Option, [], inl, inr, none, refl, some, suc, true, ℕ, ◌∷◌, ◌≡◌,
}
use distributed_file_service.Prelude.Int.{pos_part}
use distributed_file_service.Text.{Text}
use distributed_file_service.Exec.{Outcome, ok, raised}
use distributed_file_service.Models.{Db, Upload, constraints_hold, Chunk}
use distributed_file_service.Limits
use distributed_file_service.World.{AuthUser, Service, World, open_session}
use distributed_file_service.Uploads.Access.Cases.{get_owned_cases}
use distributed_file_service.Uploads.Persist.{ChunkWrite, Schedule, Stored, persist_with_retries}
use distributed_file_service.Uploads.Persist.Frame.{
  SameData, SameData-refl, persist_with_retries-frame,
}
use distributed_file_service.Uploads.ChunkUpload.{
  ChunkRequest, UploadChunkResponse, add_chunk_request, chunk_replay, new_chunk, write_of,
}
use distributed_file_service.Uploads.ChunkUpload.Checks.{
  by_range, check_body_cases, check_target_cases,
}
use distributed_file_service.Uploads.Sound.{IsSound}
use distributed_file_service.Uploads.Sound.Changes.{IsSound-add_chunk_request}
use distributed_file_service.Uploads.Sound.Steps.{chunks-add_chunk_request, unique-constraints}
use distributed_file_service.Uploads.Interleaved.Chunks.{
  ChunkPhase, admit, admitted, advance_chunk, after_acquire, after_persist, body_phase,
  chunk_answered, commit_chunk, holding, load_for_chunk, looked_up, persisted, reading,
  target_phase, try_commit,
}
use distributed_file_service.Uploads.Interleaved.Commits.{
  Grows, with_row, with_row-Grows, with_row-IsSound,
}
use distributed_file_service.Uploads.Interleaved.Tables.{
  LoadedChunk, PendingChunk, Stepped, Stepped-same,
}

Grows-add_chunk_request :
    (key : Option Text) (c : ChunkWrite) (print : Text) (now : ℕ) (a b : Db)
    → Grows a b
    → Grows a (add_chunk_request key c print now b)
Grows-add_chunk_request none c print now a b g = g
Grows-add_chunk_request (some []) c print now a b g = g
Grows-add_chunk_request (some (k ∷ key)) c print now a b g = record { kept = g.kept; more = g.more }

-- The look-up of a replay changes nothing.
pub chunk_replay-world :
    {St Q : Type 0} (v : Service St Q) (id : Text) (index : ℕ) (print : Text) (key : Option Text)
    (w : World St Q)
    → (chunk_replay id index print key w).1 ≡ w
unfolding chunk_replay
chunk_replay-world v id index print none w = refl
chunk_replay-world v id index print (some []) w = refl
chunk_replay-world v id index print (some (k ∷ key)) w = refl

module _ {St Q : Type 0} (v : Service St Q) (r : ChunkRequest) where
  abbrev pub StepsChunk : World St Q → ChunkPhase × World St Q → Type 0
  StepsChunk w p = Stepped w.db p.1.db × PendingChunk p.1.db r p.0

  commit_chunk-Stepped :
      (u : Upload) (existing : Option Chunk) (s : Stored) (retries now : ℕ) (db after : Db)
      → after
        ≡ commit_chunk u existing
            (write_of u r)
            (v.sha256 r.body)
            r.idempotency_key
            s
            retries
            now
            db
      → constraints_hold after ≡ true
      → LoadedChunk db r u
      → IsSound db
      → Stepped db after
  unfolding commit_chunk
  commit_chunk-Stepped u existing s retries now db after e c p h =
      let row = new_chunk (write_of u r) (v.sha256 r.body) s retries now in
      let next = with_row u existing row now db in
      rw e (record {
        sound =
            IsSound-add_chunk_request r.idempotency_key (write_of u r) (v.sha256 r.body) now next (
              with_row-IsSound u p.row existing row now db p.found p.same_total p.not_back
                p.in_range refl
                (rw
                  (← chunks-add_chunk_request r.idempotency_key (write_of u r) (v.sha256 r.body) now
                    next)
                  (unique-constraints _ (rw e at c)))
                h);
        grows =
            Grows-add_chunk_request r.idempotency_key (write_of u r) (v.sha256 r.body) now db next
              (with_row-Grows u existing row now db refl);
      })

  try_commit-Steps :
      (u : Upload) (s : Stored) (retries : ℕ) (existing : Option Chunk) (w : World St Q)
      → LoadedChunk w.db r u
      → IsSound w.db
      → StepsChunk w (try_commit v r u s retries existing w)
  unfolding try_commit
  try_commit-Steps u s retries existing w p h =
      elim (Bool-cases (
        constraints_hold (
          commit_chunk u existing (write_of u r) (v.sha256 r.body) r.idempotency_key s retries w.now
            w.db))) [
              | inl c ↦ rw c (commit_chunk-Stepped u existing s retries w.now w.db _ refl c p h, tt)
              | inr c ↦ rw c (Stepped-same w.db w.db refl h, tt)
            ]

  after_acquire-Pending :
      (u : Upload) (o : Outcome (Unit {0})) (db : Db)
      → LoadedChunk db r u
      → PendingChunk db r (after_acquire u o)
  after_acquire-Pending u (ok x) db p = p
  after_acquire-Pending u (raised e) db p = tt

  after_persist-Steps :
      (u : Upload) (w : World St Q) (p : Outcome (Stored × ℕ) × World St Q)
      → SameData w p.1
      → LoadedChunk w.db r u
      → IsSound w.db
      → StepsChunk w (after_persist u r.upload_id p)
  after_persist-Steps u w (ok (s, n), w₁) same p h =
      (Stepped-same w.db w₁.db same.db h, rw same.db p)
  after_persist-Steps u w (raised e, w₁) same p h = (Stepped-same w.db w₁.db same.db h, tt)

  -- The body is checked, and an answer given before is looked up.
  pub admit-world : (w : World St Q) → (admit v r w).1 ≡ w
  unfolding admit
  admit-world w =
      check_body_cases (λ p. p.1 ≡ w) v r _ w
        (λ a b c.
          chunk_replay-world v r.upload_id (pos_part r.chunk_index) (v.sha256 r.body)
            r.idempotency_key w)
        (λ e. refl)

  body_phase-Pending :
      (u : Upload) (o : Outcome (Option UploadChunkResponse)) (db : Db)
      → LoadedChunk db r u
      → PendingChunk db r (body_phase u o)
  body_phase-Pending u (ok none) db p = p
  body_phase-Pending u (ok (some out)) db p = tt
  body_phase-Pending u (raised e) db p = tt

  pub advance_chunk-Steps :
      (schedule : Schedule) (phase : ChunkPhase) (w : World St Q)
      → PendingChunk w.db r phase
      → IsSound w.db
      → StepsChunk w (advance_chunk v schedule r phase w)
  unfolding advance_chunk
  advance_chunk-Steps schedule (reading u) w p h =
      rw (admit-world (open_session w))
        (Stepped-same w.db w.db refl h, body_phase-Pending u (admit v r (open_session w)).0 w.db p)
  advance_chunk-Steps schedule (admitted u) w p h = (
    Stepped-same w.db w.db refl h,
    after_acquire-Pending u (Limits.acquire r.upload_id w.limiter).0 w.db p,
  )
  advance_chunk-Steps schedule (holding u) w p h =
      after_persist-Steps u w
        (persist_with_retries (suc v.config.max_retries) v schedule 0 (write_of u r) w)
        ((persist_with_retries-frame (suc v.config.max_retries) v schedule 0 (write_of u r)).run w
          (SameData-refl w))
        p h
  advance_chunk-Steps schedule (persisted u s n) w p h = (Stepped-same w.db w.db refl h, p)
  advance_chunk-Steps schedule (looked_up u s n e) w p h = try_commit-Steps u s n e w p h
  advance_chunk-Steps schedule (chunk_answered o) w p h = (Stepped-same w.db w.db refl h, tt)

  -- A request that comes in writes nothing, and what it loaded is there.
  abbrev Loads : World St Q → Outcome Upload × World St Q → Type 0
  Loads w p = (p.1.db ≡ w.db) × PendingChunk w.db r (target_phase p.0)

  pub load_for_chunk-Loads :
      (user : AuthUser) (w : World St Q) → w.session ≡ w.db → Loads w (load_for_chunk r user w)
  unfolding load_for_chunk
  load_for_chunk-Loads user w fresh =
      get_owned_cases (Loads w) r.upload_id user _ w
        (λ u found own.
          check_target_cases (Loads w) u r _ w
            (λ a b. (
              refl,
              record {
                row = u;
                found = rw fresh at found;
                same_total = refl;
                not_back = λ h. h;
                in_range = by_range r.chunk_index u.total_chunks b;
              },
            ))
            (λ e. (refl, tt)))
        (λ e. (refl, tt))
