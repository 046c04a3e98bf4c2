-- ===== src/Uploads/Interleaved/Forward/Onward.antt =====
-- The status of an upload after any events.
use distributed_file_service.Prelude.{
  Bool-cases, List, Option, [], any, arith, false, find, inl, inr, refl, some, suc, zero, ℕ, ◌&&◌,
  ◌∷◌, ◌≡◌, ◌⊎◌,
}
use distributed_file_service.Text.{Text, text_eq, text_eq_iff}
use distributed_file_service.Exec.{Outcome, ok}
use distributed_file_service.Models.{Upload, completed, has_id, in_progress, is_initiated}
use distributed_file_service.World.{AuthUser, Service, World, open_session}
use distributed_file_service.Uploads.Access.Cases.{get_owned_cases}
use distributed_file_service.Uploads.ChunkUpload.{ChunkRequest}
use distributed_file_service.Uploads.ChunkUpload.Checks.{check_target_cases}
use distributed_file_service.Uploads.Complete.Effect.{complete_replay_cases}
use distributed_file_service.Uploads.Serve.{Request, handle}
use distributed_file_service.Uploads.Serve.Lifecycle.{
  Advances, Advances-refl, Advances-trans, handle-Kept,
}
use distributed_file_service.Uploads.Interleaved.Chunks.{load_for_chunk, target_phase}
use distributed_file_service.Uploads.Interleaved.Completion.{load_for_complete}
use distributed_file_service.Uploads.Interleaved.Systems.{
  Event, System, Thread, advance_at, advances, chunk_comes, clock_shows, complete_comes,
  other_comes, run, step,
}
use distributed_file_service.Uploads.Interleaved.Forward.{
  Ahead, advance_thread-Forward, is_stale_load, loaded_initiated,
}

module _ {St Q : Type 0} (v : Service St Q) (id : Text) (u : Upload) where
  advance_at-Forward :
      (n : ℕ) (ts : List Thread) (w : World St Q)
      → any (is_stale_load id) ts ≡ false
      → Ahead id u w.db.uploads
      → Ahead id u (advance_at v n ts w).1.db.uploads
        × (any (is_stale_load id) (advance_at v n ts w).0 ≡ false)
  unfolding advance_at any
  advance_at-Forward n [] w fresh h = (h, refl)
  advance_at-Forward zero (t ∷ ts) w fresh h =
      let (a, b) = advance_thread-Forward id u v t w (ground (arith, fresh)) h in
      (a, ground (arith, b, fresh))
  advance_at-Forward (suc n) (t ∷ ts) w fresh h =
      let (a, b) = advance_at-Forward n ts w (ground (arith, fresh)) h in
      (a, ground (arith, b, fresh))

  -- A request that comes in loads the row as it is.
  load_for_chunk-Forward :
      (r : ChunkRequest) (user : AuthUser) (w : World St Q)
      → w.session ≡ w.db
      → Ahead id u w.db.uploads
      → ((load_for_chunk r user w).1.db ≡ w.db)
        × ((text_eq r.upload_id id && loaded_initiated (target_phase (load_for_chunk r user w).0))
            ≡ false)
  unfolding load_for_chunk
  load_for_chunk-Forward r user w same h =
      get_owned_cases Loads r.upload_id user _ w
        (λ x found own.
          check_target_cases Loads x r _ w (λ a b. loads x (rw same at found))
            (λ e. (refl, ground arith)))
        (λ e. (refl, ground arith))
    where
      Loads : Outcome Upload × World St Q → Type 0
      Loads p =
          (p.1.db ≡ w.db)
          × ((text_eq r.upload_id id && loaded_initiated (target_phase p.0)) ≡ false)

      loads : (x : Upload) → find (has_id r.upload_id) w.db.uploads ≡ some x → Loads (ok x, w)
      loads x found = elim (Bool-cases (text_eq r.upload_id id)) [
        | inr e ↦ (refl, ground (arith, e))
        | inl e ↦
            let k : r.upload_id ≡ id = (text_eq_iff r.upload_id id).0 e in
            let n : find (has_id id) w.db.uploads ≡ some x = rw k at found in
            (refl, ground (arith, e, n, h.found, h.started))
      ]

  load-db :
      (i : Text) (key : Option Text) (user : AuthUser) (w : World St Q)
      → (load_for_complete v i key user w).1.db ≡ w.db
  unfolding load_for_complete
  load-db i key user w =
      get_owned_cases (λ p. p.1.db ≡ w.db) i user _ w
        (λ x found own.
          complete_replay_cases v i key (λ p. p.1.db ≡ w.db) _ key user _ w (λ o. refl) (λ e. refl))
        (λ e. refl)

  handle-Ahead :
      (user : AuthUser) (q : Request) (w : World St Q)
      → w.session ≡ w.db
      → Ahead id u w.db.uploads
      → Ahead id u (handle v user q w).db.uploads
  handle-Ahead user q w same h =
      let (t, n, a) = handle-Kept v user q w id h.row same h.found in
      record {
        row = t;
        found = n;
        ahead = Advances-trans h.ahead a;
        started = later h.row t a h.started;
        alive = a.alive h.alive;
      }
    where
      later :
          (x t : Upload)
          → Advances x t
          → is_initiated x.status ≡ false
          → is_initiated t.status ≡ false
      later x t a e = ground (arith, a.forward, e)

  step-Forward :
      (e : Event) (s : System St Q)
      → any (is_stale_load id) s.threads ≡ false
      → Ahead id u s.world.db.uploads
      → Ahead id u (step v e s).world.db.uploads
        × (any (is_stale_load id) (step v e s).threads ≡ false)
  unfolding step any is_stale_load
  step-Forward (chunk_comes schedule r user) s fresh h =
      let (same, b) = load_for_chunk-Forward r user (open_session s.world) refl h in
      (rw same h, ground (arith, b, fresh))
  step-Forward (complete_comes i key user) s fresh h =
      (rw (load-db i key user (open_session s.world)) h, fresh)
  step-Forward (other_comes request user) s fresh h =
      (handle-Ahead user request (open_session s.world) refl h, fresh)
  step-Forward (advances n) s fresh h = advance_at-Forward n s.threads s.world fresh h
  step-Forward (clock_shows time) s fresh h = (h, fresh)

  run-Forward :
      (es : List Event) (s : System St Q)
      → any (is_stale_load id) s.threads ≡ false
      → Ahead id u s.world.db.uploads
      → Ahead id u (run v es s).world.db.uploads
  unfolding run
  run-Forward [] s fresh h = h
  run-Forward (e ∷ es) s fresh h =
      let (a, b) = step-Forward e s fresh h in run-Forward es (step v e s) b a

  -- Once an upload is IN_PROGRESS or COMPLETED and no waiting request on a chunk of it has loaded
  -- it as INITIATED, it stays there however requests overtake each other, with its owner and its
  -- announced data, and its status does not go back: a completed upload stays COMPLETED.
  pub run-Advances :
      (es : List Event) (s : System St Q)
      → find (has_id id) s.world.db.uploads ≡ some u
      → (u.status ≡ in_progress) ⊎ (u.status ≡ completed)
      → any (is_stale_load id) s.threads ≡ false
      → (t : Upload) × (find (has_id id) (run v es s).world.db.uploads ≡ some t)
        × Advances u t
        × (u.status ≡ completed → t.status ≡ completed)
  run-Advances es s found at_work fresh =
      let h = run-Forward es s fresh (record {
        row = u;
        found = found;
        ahead = Advances-refl u;
        started = ground (arith, at_work);
        alive = ground (arith, at_work);
      }) in
      (h.row, h.found, h.ahead, λ done. ground (arith, done, h.ahead.forward, h.alive))
