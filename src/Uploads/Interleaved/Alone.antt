-- ===== src/Uploads/Interleaved/Alone.antt =====
-- A request on a chunk whose steps no other request gets between is `upload_chunk` as it stands.
pub mod Records
pub mod Held
use distributed_file_service.Prelude.{
  Bool-cases, Option, Option-cases, [], ap, arith, find, inl, inr, none, refl, some, sym, true, ◌∙◌,
  ◌∷◌, ◌≡◌,
}
use distributed_file_service.Prelude.Int.{pos_part}
use distributed_file_service.Exec.Cases.{run_cases}
use distributed_file_service.Text.{text_eq}
use distributed_file_service.Exec.{Outcome, next_with, ok, pure, raised, ◌>>=◌, ◌>>◌}
use distributed_file_service.Models.{Upload, constraints_hold, has_id}
use distributed_file_service.Limits
use distributed_file_service.World.{AuthUser, Service, World, open_session, or_run}
use distributed_file_service.Uploads.Persist.{Schedule}
use distributed_file_service.Uploads.ChunkUpload.Checks.{check_body_cases, check_target_cases}
use distributed_file_service.Uploads.Access.{check_owner, get_owned_upload}
use distributed_file_service.Uploads.ChunkUpload.{
  ChunkRequest, UploadChunkResponse, check_body, check_chunk, check_target, chunk_replay, limited,
  store_and_record, upload_chunk, write_of,
}
use distributed_file_service.Uploads.Interleaved.Chunks.{
  ChunkPhase, admit, advance_chunk, body_phase, chunk_answered, load_for_chunk, target_phase,
}
use distributed_file_service.Uploads.Interleaved.Systems.{
  System, advance_at, advance_thread, advances, chunk_comes, chunk_thread, run, step,
}
use distributed_file_service.Uploads.Interleaved.Tables.ChunkSteps.{chunk_replay-world}
use distributed_file_service.Uploads.Interleaved.Alone.Held.{
  Same, answered-Same, replayed-Same, to_the_end,
}

module _ {St Q : Type 0} (v : Service St Q) (schedule : Schedule) (r : ChunkRequest) where
  -- What the reads of the handler return with.
  owned-ok :
      (user : AuthUser) (u : Upload) (w s : World St Q)
      → get_owned_upload r.upload_id user w ≡ (ok u, s)
      → (s ≡ w) × (find (has_id r.upload_id) w.session.uploads ≡ some u)
  unfolding get_owned_upload check_owner
  owned-ok user u w s h = elim (Option-cases (find (has_id r.upload_id) w.session.uploads)) [
    | inl e ↦ absurd (ground (arith, ap (λ p. p.0) (rw e at h)))
    | inr (x, e) ↦ elim (Bool-cases (text_eq x.owner_id user.user_id)) [
      | inr k ↦ absurd (ground (arith, ap (λ p. p.0) (rw (e, k) at h)))
      | inl k ↦ (
        sym (ap (λ p. p.1) (rw (e, k) at h)),
        e
            ∙ ap (λ (o : Outcome Upload). elim o [ ok y ↦ some y | raised z ↦ none ])
                (ap (λ p. p.0) (rw (e, k) at h)),
      )
    ]
  ]

  then_pure-world : {A : Type 0} (p : Outcome A × World St Q) → (next_with pure p).1 ≡ p.1
  then_pure-world (ok a, w) = refl
  then_pure-world (raised e, w) = refl

  check_target-world : (u : Upload) (w : World St Q) → (check_target u r w).1 ≡ w
  check_target-world u w =
      sym (then_pure-world (check_target u r w))
      ∙ check_target_cases (λ p. p.1 ≡ w) u r pure w (λ a b. refl) (λ e. refl)

  check_body-world : (w : World St Q) → (check_body v r w).1 ≡ w
  check_body-world w =
      sym (then_pure-world (check_body v r w))
      ∙ check_body_cases (λ p. p.1 ≡ w) v r pure w (λ a b c. refl) (λ e. refl)

  replay-Same :
      (u : Upload) (w : World St Q)
      → w.session ≡ w.db
      → constraints_hold w.db ≡ true
      → find (has_id r.upload_id) w.db.uploads ≡ some u
      → (p : Outcome (Option UploadChunkResponse) × World St Q) → p.1 ≡ w
      → Same v schedule r
          (next_with
            (λ o. or_run o (
              limited r.upload_id
                (store_and_record v schedule (write_of u r) (v.sha256 r.body) r.idempotency_key)))
            p)
          (to_the_end v schedule r (body_phase u p.0) p.1)
  replay-Same u w fresh c found (raised e, w₁) same = answered-Same v schedule r (raised e) w₁
  replay-Same u w fresh c found (ok o, w₁) same =
      replayed-Same v schedule r o u w₁ (rw same fresh) (rw same c) (rw same found)

  -- From the body on.
  body-Same :
      (u : Upload) (w : World St Q)
      → w.session ≡ w.db
      → constraints_hold w.db ≡ true
      → find (has_id r.upload_id) w.db.uploads ≡ some u
      → Same v schedule r
          ((do
            check_body v r
            replay ←
                chunk_replay r.upload_id
                  (pos_part r.chunk_index)
                  (v.sha256 r.body)
                  r.idempotency_key
            or_run replay (
                limited r.upload_id
                  (store_and_record v schedule (write_of u r) (v.sha256 r.body) r.idempotency_key)))
            w)
          (let (o, w₁) = admit v r w in to_the_end v schedule r (body_phase u o) w₁)
  unfolding admit
  body-Same u w fresh c found = elim (run_cases (check_body v r w)) [
    | inr (x, s, e) ↦ rw e (answered-Same v schedule r (raised x) s)
    | inl (x, s, e) ↦
        rw (e, sym (ap (λ p. p.1) e) ∙ check_body-world w)
          (replay-Same u w fresh c found _ (
            chunk_replay-world v r.upload_id (pos_part r.chunk_index) (v.sha256 r.body)
              r.idempotency_key w))
  ]

  -- All steps of a request that has loaded its upload.
  unfoldable from_body : ChunkPhase → World St Q → ChunkPhase × World St Q
  unfolding to_the_end
  from_body phase w =
      let (p₁, w₁) = advance_chunk v schedule r phase w in to_the_end v schedule r p₁ w₁

  -- All of the handler against the steps that it is cut into.
  whole-Same :
      (user : AuthUser) (w : World St Q)
      → constraints_hold w.db ≡ true
      → let (o, w₁) = load_for_chunk r user (open_session w) in
        Same v schedule r
          (upload_chunk v schedule r user (open_session w))
          (from_body (target_phase o) w₁)
  unfolding upload_chunk load_for_chunk check_chunk from_body advance_chunk
  whole-Same user w c = elim (run_cases (get_owned_upload r.upload_id user (open_session w))) [
    | inr (x, s, e) ↦ rw e (answered-Same v schedule r (raised x) s)
    | inl (u, s, e) ↦
        let (same, found) = owned-ok user u (open_session w) s e in
        rw (e, same)
          (elim (run_cases (check_target u r (open_session w))) [
            | inr (x, t, k) ↦ rw k (answered-Same v schedule r (raised x) t)
            | inl (x, t, k) ↦
                rw (k, sym (ap (λ p. p.1) k) ∙ check_target-world u (open_session w))
                  (body-Same u (open_session w) refl c found)
          ])
  ]

  abbrev alone : AuthUser → World St Q → System St Q
  alone user w =
      run v
        (chunk_comes schedule r user
          ∷ advances 0
          ∷ advances 0
          ∷ advances 0
          ∷ advances 0
          ∷ advances 0
          ∷ [])
        (record { world = w; threads = [] })

  -- If no other request gets in between, the steps of a request on a chunk do what `upload_chunk`
  -- does, on every branch: the same answer, and the same database, store, queue, limiter, worker
  -- pool, metrics and audit lines.
  pub run-upload_chunk :
      (user : AuthUser) (w : World St Q)
      → constraints_hold w.db ≡ true
      → let p = upload_chunk v schedule r user (open_session w) in
        let s = alone user w in
        (s.threads ≡ chunk_thread schedule r (chunk_answered p.0) ∷ [])
        × (s.world ≡ record p.1 { session = s.world.session })
  unfolding run step advance_at advance_thread from_body to_the_end
  run-upload_chunk user w c =
      let (a, b) = whole-Same user w c in (ap (λ phase. chunk_thread schedule r phase ∷ []) a, b)
