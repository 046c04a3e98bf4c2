-- ===== src/Uploads/Interleaved/OneProcess.antt =====
-- One process: `upload_chunk` is a coroutine that waits for the body and then for nothing else, so
-- the event loop runs it from its body to its answer, the waiting for the worker pool included,
-- before it turns to another request on a chunk.
pub mod Free
use distributed_file_service.Prelude.{
  Bool, List, [], arith, false, refl, suc, true, zero, ℕ, ◌<◌, ◌∙◌, ◌∷◌, ◌≡◌,
}
use distributed_file_service.Text.{Text}
use distributed_file_service.Exec.{ok}
use distributed_file_service.Limits
use distributed_file_service.Limits.Holders.{
  acquire_decides, cap, cap-acquire, cap-release, release-acquire,
}
use distributed_file_service.World.{Service, World}
use distributed_file_service.Uploads.Persist.{Schedule}
use distributed_file_service.Uploads.Persist.Frame.{
  SameData, SameData-refl, persist_with_retries-frame,
}
use distributed_file_service.Uploads.ChunkUpload.{ChunkRequest}
use distributed_file_service.Uploads.Complete.Effect.{complete_replay_cases}
use distributed_file_service.Uploads.Serve.{Request, chunk, complete, fetch, handle, init, missing}
use distributed_file_service.Uploads.Interleaved.Chunks.{
  ChunkPhase, advance_chunk, chunk_answered, reading,
}
use distributed_file_service.Uploads.Interleaved.Completion.{advance_complete}
use distributed_file_service.Uploads.Interleaved.Systems.{
  Event, System, Thread, advances, chunk_thread, complete_thread, step,
}

module _ {St Q : Type 0} where
  -- From the body to the answer.
  unfoldable pub answer_chunk :
      Service St Q → Schedule → ChunkRequest → ChunkPhase → World St Q → ChunkPhase × World St Q
  answer_chunk v schedule r phase w =
      let (p₁, w₁) = advance_chunk v schedule r phase w in
      let (p₂, w₂) = advance_chunk v schedule r p₁ w₁ in
      let (p₃, w₃) = advance_chunk v schedule r p₂ w₂ in
      let (p₄, w₄) = advance_chunk v schedule r p₃ w₃ in advance_chunk v schedule r p₄ w₄

  unfoldable pub resume : Service St Q → Thread → World St Q → Thread × World St Q
  resume v (chunk_thread schedule r phase) w =
      let (phase', w') = answer_chunk v schedule r phase w in (chunk_thread schedule r phase', w')
  resume v (complete_thread id key phase) w =
      let (phase', w') = advance_complete v id key phase w in (complete_thread id key phase', w')

  unfoldable pub resume_at : Service St Q → ℕ → List Thread → World St Q → List Thread × World St Q
  resume_at v n [] w = ([], w)
  resume_at v zero (t ∷ ts) w = let (t', w') = resume v t w in (t' ∷ ts, w')
  resume_at v (suc n) (t ∷ ts) w = let (ts', w') = resume_at v n ts w in (t ∷ ts', w')

  unfoldable pub turn : Service St Q → Event → System St Q → System St Q
  turn v (advances n) s =
      let (ts, w) = resume_at v n s.threads s.world in record { world = w; threads = ts }
  turn v e s = step v e s

  unfoldable pub turns : Service St Q → List Event → System St Q → System St Q
  turns v [] s = s
  turns v (e ∷ es) s = turns v es (turn v e s)

-- A request on a chunk that waits for its body, or is answered.
abbrev pub is_idle : Thread → Bool
is_idle (chunk_thread s r (reading u)) = true
is_idle (chunk_thread s r (chunk_answered o)) = true
is_idle (chunk_thread s r phase) = false
is_idle (complete_thread id key phase) = true

-- The limiter after requests that all got their slot and gave it back.
pub record IsUnused (l m : Limits.Limiter) : Type 0 where
  pub same_current : (id : Text) → Limits.current m id ≡ Limits.current l id
  pub same_cap : cap m ≡ cap l
  pub none_refused : m.throttled_requests_total ≡ l.throttled_requests_total

-- No slot is in use, and there is one for each upload.
pub record IsFree (l : Limits.Limiter) : Type 0 where
  pub no_holder : (id : Text) → Limits.current l id ≡ 0
  pub has_room : 0 < cap l

pub IsUnused-refl : (l : Limits.Limiter) → IsUnused l l
IsUnused-refl l = record { same_current = λ id. refl; same_cap = refl; none_refused = refl }

pub IsUnused-trans : {k l m : Limits.Limiter} → IsUnused k l → IsUnused l m → IsUnused k m
IsUnused-trans a b = record {
  same_current = λ id. b.same_current id ∙ a.same_current id;
  same_cap = b.same_cap ∙ a.same_cap;
  none_refused = b.none_refused ∙ a.none_refused;
}

pub IsUnused-same : (l m : Limits.Limiter) → m ≡ l → IsUnused l m
IsUnused-same l m e = rw e (IsUnused-refl l)

pub IsFree-IsUnused : {l m : Limits.Limiter} → IsUnused l m → IsFree l → IsFree m
IsFree-IsUnused a h = record {
  no_holder = λ id. a.same_current id ∙ h.no_holder id;
  has_room = rw a.same_cap h.has_room;
}

throttled-acquire :
    (l : Limits.Limiter) (id : Text)
    → (Limits.acquire id l).0 ≡ ok tt
    → (Limits.acquire id l).1.throttled_requests_total ≡ l.throttled_requests_total
unfolding Limits.acquire
throttled-acquire l id h = ground arith

throttled-release :
    (l : Limits.Limiter) (id : Text)
    → (Limits.release id l).throttled_requests_total ≡ l.throttled_requests_total
unfolding Limits.release
throttled-release l id = ground arith

-- A free limiter lets a request through, and is as before after its release.
pub acquire-free :
    (l : Limits.Limiter) (id : Text)
    → IsFree l
    → ((Limits.acquire id l).0 ≡ ok tt) × IsUnused l (Limits.release id (Limits.acquire id l).1)
acquire-free l id h =
    let got : (Limits.acquire id l).0 ≡ ok tt =
      ((acquire_decides l id).0 (omega (arith, h.no_holder id, h.has_room))).0 in
    (
      got,
      record {
        same_current = λ j. release-acquire l id j got;
        same_cap = cap-release (Limits.acquire id l).1 id ∙ cap-acquire l id;
        none_refused = throttled-release (Limits.acquire id l).1 id ∙ throttled-acquire l id got;
      },
    )
