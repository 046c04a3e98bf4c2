-- ===== src/Uploads/Interleaved/Slots/Runs.antt =====
-- The slots in use after any events.
use distributed_file_service.Prelude.{
  List, Option, [], arith, count, false, refl, suc, zero, ℕ, ◌∙◌, ◌∷◌, ◌≡◌, ◌≤◌,
}
use distributed_file_service.Text.{Text}
use distributed_file_service.Exec.{Outcome, ok, raised}
use distributed_file_service.Models.{Upload}
use distributed_file_service.Limits
use distributed_file_service.Limits.Holders.{cap}
use distributed_file_service.World.{AuthUser, Service, World, open_session}
use distributed_file_service.Uploads.Access.Cases.{get_owned_cases}
use distributed_file_service.Uploads.Persist.{Schedule}
use distributed_file_service.Uploads.ChunkUpload.{ChunkRequest}
use distributed_file_service.Uploads.ChunkUpload.Checks.{check_target_cases}
use distributed_file_service.Uploads.Complete.Effect.{complete_replay_cases}
use distributed_file_service.Uploads.Interleaved.Chunks.{load_for_chunk, target_phase}
use distributed_file_service.Uploads.Interleaved.Completion.{load_for_complete}
use distributed_file_service.Uploads.Interleaved.Systems.{
  Event, System, Thread, advance_at, advances, chunk_comes, chunk_thread, clock_shows,
  complete_comes, other_comes, run, step,
}
use distributed_file_service.Uploads.Interleaved.Slots.Endings.{handle-SameSlots}
use distributed_file_service.Uploads.Interleaved.Slots.Exact.{
  Slotted, advance_thread-Slotted, holds_slot,
}

-- The limiter counts the holders of each upload, and is within its limits.
pub record IsExact (l : Limits.Limiter) (ts : List Thread) : Type 0 where
  pub exact : (id : Text) → Limits.current l id ≡ count (holds_slot id) ts
  pub within : (id : Text) → Limits.current l id ≤ cap l

module _ {St Q : Type 0} (v : Service St Q) where
  advance_at-Slotted :
      (n : ℕ) (ts : List Thread) (w : World St Q)
      → Slotted w.limiter
          (advance_at v n ts w).1.limiter
          (λ id. count (holds_slot id) ts)
          (λ id. count (holds_slot id) (advance_at v n ts w).0)
  unfolding advance_at count
  advance_at-Slotted n [] w = record {
    same_cap = refl;
    balance = λ id q. refl;
    bounded = λ id q. q;
  }
  advance_at-Slotted zero (t ∷ ts) w =
      let s = advance_thread-Slotted v t w in
      record {
        same_cap = s.same_cap;
        balance = λ id q. omega (arith, s.balance id (omega arith));
        bounded = s.bounded;
      }
  advance_at-Slotted (suc n) (t ∷ ts) w =
      let s = advance_at-Slotted n ts w in
      record {
        same_cap = s.same_cap;
        balance = λ id q. omega (arith, s.balance id (omega arith));
        bounded = s.bounded;
      }

  -- A request that comes in holds no slot.
  pub load_for_chunk-limiter :
      (r : ChunkRequest) (user : AuthUser) (w : World St Q)
      → (load_for_chunk r user w).1.limiter ≡ w.limiter
  unfolding load_for_chunk
  load_for_chunk-limiter r user w =
      get_owned_cases (λ p. p.1.limiter ≡ w.limiter) r.upload_id user _ w
        (λ u found own.
          check_target_cases (λ p. p.1.limiter ≡ w.limiter) u r _ w (λ a b. refl) (λ e. refl))
        (λ e. refl)

  target_phase-holds_slot :
      (id : Text) (schedule : Schedule) (r : ChunkRequest) (o : Outcome Upload)
      → holds_slot id (chunk_thread schedule r (target_phase o)) ≡ false
  unfolding holds_slot
  target_phase-holds_slot id schedule r (ok u) = ground arith
  target_phase-holds_slot id schedule r (raised e) = ground arith

  pub load-limiter :
      (id : Text) (key : Option Text) (user : AuthUser) (w : World St Q)
      → (load_for_complete v id key user w).1.limiter ≡ w.limiter
  unfolding load_for_complete
  load-limiter id key user w =
      get_owned_cases (λ p. p.1.limiter ≡ w.limiter) id user _ w
        (λ u found own.
          complete_replay_cases v id key (λ p. p.1.limiter ≡ w.limiter) _ key user _ w (λ o. refl)
            (λ e. refl))
        (λ e. refl)

  -- Each step keeps the count exact, and the limits stay.
  step-IsExact :
      (e : Event) (s : System St Q)
      → IsExact s.world.limiter s.threads
      → IsExact (step v e s).world.limiter (step v e s).threads
        × (cap (step v e s).world.limiter ≡ cap s.world.limiter)
  unfolding step count
  step-IsExact (chunk_comes schedule r user) s h =
      let w = open_session s.world in
      let same = load_for_chunk-limiter r user w in
      (
        record {
          exact = λ id.
              rw (same, target_phase-holds_slot id schedule r (load_for_chunk r user w).0)
                (omega (arith, h.exact id));
          within = λ id. rw same (h.within id);
        },
        rw same refl,
      )
  step-IsExact (complete_comes id key user) s h =
      let same = load-limiter id key user (open_session s.world) in
      (
        record {
          exact = λ i. rw same (unfold holds_slot in omega (arith, h.exact i));
          within = λ i. rw same (h.within i);
        },
        rw same refl,
      )
  step-IsExact (other_comes request user) s h =
      let same = handle-SameSlots v user request (open_session s.world) in
      (
        record {
          exact = λ id. same.same_current id ∙ h.exact id;
          within = λ id. rw (same.same_current id, same.same_cap) (h.within id);
        },
        same.same_cap,
      )
  step-IsExact (advances n) s h =
      let p = advance_at-Slotted n s.threads s.world in
      (
        record {
          exact = λ id. omega (arith, p.balance id (omega (arith, h.exact id)), h.exact id);
          within = λ id. rw p.same_cap (p.bounded id (h.within id));
        },
        p.same_cap,
      )
  step-IsExact (clock_shows time) s h = (record { exact = h.exact; within = h.within }, refl)

  -- However requests overtake each other, from a limiter that counts the requests at work, each
  -- upload's count stays the number of its requests between `acquire` and `release`, so that no
  -- slot is lost or given back twice, and it never passes the limits that the service began with.
  pub run-holds_slot :
      (es : List Event) (s : System St Q) (id : Text)
      → IsExact s.world.limiter s.threads
      → (Limits.current (run v es s).world.limiter id ≡ count (holds_slot id) (run v es s).threads)
        × (count (holds_slot id) (run v es s).threads ≤ cap s.world.limiter)
  unfolding run
  run-holds_slot [] s id h = (h.exact id, omega (arith, h.exact id, h.within id))
  run-holds_slot (e ∷ es) s id h =
      let (x, same) = step-IsExact e s h in
      let (a, b) = run-holds_slot es (step v e s) id x in (a, omega (arith, b, same))
