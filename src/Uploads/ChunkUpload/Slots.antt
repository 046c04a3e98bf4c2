-- ===== src/Uploads/ChunkUpload/Slots.antt =====
-- The slots of the limiter that a request on a chunk takes and gives back.
use distributed_file_service.Prelude.{
  Bool-cases, Option, ap, arith, inl, inr, none, refl, some, suc, sym, ◌∙◌, ◌≡◌,
}
use distributed_file_service.Prelude.Int.{pos_part}
use distributed_file_service.Text.{Text}
use distributed_file_service.Exec.{Error, Exec, Outcome, ok, raised}
use distributed_file_service.Exec.Cases.{bind_cases, run_cases}
use distributed_file_service.Models.{Upload, constraints_hold}
use distributed_file_service.Limits.{Limiter, acquire, current}
use distributed_file_service.Limits.Holders.{release-acquire}
use distributed_file_service.World.{AuthUser, Service, World, commit, or_run}
use distributed_file_service.Uploads.Access.Cases.{get_owned_cases}
use distributed_file_service.Uploads.Persist.{Schedule, persist_with_retries}
use distributed_file_service.Uploads.ChunkUpload.{
  ChunkRequest, UploadChunkResponse, limited, record_chunk, store_and_record, upload_chunk,
  write_of,
}
use distributed_file_service.Uploads.ChunkUpload.Checks.{check_chunk_cases, chunk_replay_cases}
use distributed_file_service.Uploads.ChunkUpload.Effect.{frame_of}

counts-acquire :
    (id : Text) (l : Limiter) (e : Error)
    → (acquire id l).0 ≡ raised e
    → (acquire id l).1.counts ≡ l.counts
unfolding acquire
counts-acquire id l e h = ground arith

module _ {St Q : Type 0} where
  -- Every upload has as many slots in use after a run as before it.
  abbrev SlotsKept : {A : Type 0} → World St Q → Outcome A × World St Q → Type 0
  SlotsKept w p = (id : Text) → current p.1.limiter id ≡ current w.limiter id

  limited-SlotsKept :
      {A : Type 0} (id : Text) (body : Exec (World St Q) A) (w : World St Q)
      → ((w' : World St Q) → (body w').1.limiter ≡ w'.limiter)
      → SlotsKept w (limited id body w)
  unfolding limited
  limited-SlotsKept id body w keeps x = elim (run_cases (acquire id w.limiter)) [
    | inl (u, l, e) ↦
        rw (e, keeps (record w { limiter = l }))
          (rw (ap (λ p. p.1) e) at (release-acquire w.limiter id x (ap (λ p. p.0) e)))
    | inr (err, l, e) ↦ rw (
      e,
      ap (λ (p : Outcome Unit × Limiter). p.1.counts) (sym e)
          ∙ counts-acquire id w.limiter err (ap (λ p. p.0) e),
    )
  ]

module _ {St Q : Type 0} (v : Service St Q) (schedule : Schedule) (r : ChunkRequest) where
  pub store_and_record-limiter :
      (u : Upload) (w : World St Q)
      → (store_and_record v schedule (write_of u r) (v.sha256 r.body) r.idempotency_key w).1.limiter
        ≡ w.limiter
  unfolding store_and_record commit
  store_and_record-limiter u w =
      bind_cases (λ p. p.1.limiter ≡ w.limiter)
        (persist_with_retries (suc v.config.max_retries) v schedule 0 (write_of u r)) _ w
        (λ stored w₂ e.
          let same =
            frame_of v schedule r w w₂ (suc v.config.max_retries) 0 (write_of u r) (ok stored) e in
          elim (Bool-cases (
            constraints_hold (
              record_chunk (write_of u r) (v.sha256 r.body) r.idempotency_key stored.0 stored.1
                w₂.now w₂.session))) [ inl c ↦ rw c same.limiter | inr c ↦ rw c same.limiter ])
        (λ x w₂ e.
          (frame_of v schedule r w w₂ (suc v.config.max_retries) 0 (write_of u r) (raised x)
            e).limiter)

  or_limited :
      (replay : Option UploadChunkResponse) (u : Upload) (w : World St Q)
      → SlotsKept w (
          or_run replay
            (limited r.upload_id
              (store_and_record v schedule (write_of u r) (v.sha256 r.body) r.idempotency_key))
            w)
  or_limited (some response) u w = λ id. refl
  or_limited none u w = limited-SlotsKept r.upload_id _ w (store_and_record-limiter u)

  upload_chunk-SlotsKept :
      (w : World St Q) (user : AuthUser) → SlotsKept w (upload_chunk v schedule r user w)
  unfolding upload_chunk
  upload_chunk-SlotsKept w user =
      get_owned_cases (SlotsKept w) r.upload_id user _ w
        (λ u found owner.
          check_chunk_cases (SlotsKept w) v u r _ w
            (λ accepted.
              chunk_replay_cases (SlotsKept w) r.upload_id (pos_part r.chunk_index)
                (v.sha256 r.body) r.idempotency_key _ w (λ replay. or_limited replay u w)
                (λ e id. refl))
            (λ e id. refl))
        (λ e id. refl)

  -- However a request on a chunk ends, each upload has as many slots of the limiter in use as before.
  pub upload_chunk-current :
      (w : World St Q) (user : AuthUser) (id : Text)
      → current (upload_chunk v schedule r user w).1.limiter id ≡ current w.limiter id
  upload_chunk-current w user id = upload_chunk-SlotsKept w user id
