-- ===== src/Uploads/Interleaved/Slots/Endings.antt =====
-- The limiter after a whole request that runs alone.
use distributed_file_service.Prelude.{Option, ap, inl, inr, none, refl, some, sym, ◌∙◌, ◌≡◌}
use distributed_file_service.Prelude.Int.{pos_part}
use distributed_file_service.Text.{Text}
use distributed_file_service.Exec.{Outcome}
use distributed_file_service.Exec.Cases.{run_cases}
use distributed_file_service.Models.{Upload}
use distributed_file_service.Limits
use distributed_file_service.Limits.Holders.{cap, cap-acquire, cap-release}
use distributed_file_service.World.{AuthUser, Service, World, or_run}
use distributed_file_service.Uploads.Persist.{Schedule}
use distributed_file_service.Uploads.ChunkUpload.{
  ChunkRequest, UploadChunkResponse, limited, store_and_record, upload_chunk, write_of,
}
use distributed_file_service.Uploads.ChunkUpload.Checks.{check_chunk_cases, chunk_replay_cases}
use distributed_file_service.Uploads.ChunkUpload.Slots.{
  store_and_record-limiter, upload_chunk-current,
}
use distributed_file_service.Uploads.Access.Cases.{get_owned_cases}
use distributed_file_service.Uploads.Serve.{Request, chunk, complete, fetch, handle, init, missing}
use distributed_file_service.Uploads.Interleaved.Slots.Handlers.{
  complete_upload-limiter, download-limiter, init_upload-limiter, missing_chunks-limiter,
}

-- The limits stay, and each upload has as many slots in use as before.
pub record SameSlots (a b : Limits.Limiter) : Type 0 where
  pub same_cap : cap b ≡ cap a
  pub same_current : (id : Text) → Limits.current b id ≡ Limits.current a id

module _ {St Q : Type 0} (v : Service St Q) where
  pub upload_chunk-cap :
      (schedule : Schedule) (r : ChunkRequest) (user : AuthUser) (w : World St Q)
      → cap (upload_chunk v schedule r user w).1.limiter ≡ cap w.limiter
  unfolding upload_chunk limited
  upload_chunk-cap schedule r user w =
      get_owned_cases (λ p. cap p.1.limiter ≡ cap w.limiter) r.upload_id user _ w
        (λ u found own.
          check_chunk_cases (λ p. cap p.1.limiter ≡ cap w.limiter) v u r _ w
            (λ a.
              chunk_replay_cases (λ p. cap p.1.limiter ≡ cap w.limiter) r.upload_id
                (pos_part r.chunk_index) (v.sha256 r.body) r.idempotency_key _ w
                (λ o. write_cap o u) (λ e. refl))
            (λ e. refl))
        (λ e. refl)
    where
      write_cap :
          (o : Option UploadChunkResponse) (u : Upload)
          → cap
              (or_run o
                (limited r.upload_id
                  (store_and_record v schedule (write_of u r) (v.sha256 r.body) r.idempotency_key))
                w).1.limiter
            ≡ cap w.limiter
      write_cap (some out) u = refl
      write_cap none u = elim (run_cases (Limits.acquire r.upload_id w.limiter)) [
        | inl (t, l, e) ↦
            rw
              (
                e,
                cap-release
                    (store_and_record v schedule (write_of u r) (v.sha256 r.body) r.idempotency_key
                      (record w { limiter = l })).1.limiter
                    r.upload_id,
                store_and_record-limiter v schedule r u (record w { limiter = l }),
              )
              (ap (λ (p : Outcome Unit × Limits.Limiter). cap p.1) (sym e)
                ∙ cap-acquire w.limiter r.upload_id)
        | inr (x, l, e) ↦ rw e (
            ap (λ (p : Outcome Unit × Limits.Limiter). cap p.1) (sym e)
            ∙ cap-acquire w.limiter r.upload_id)
      ]

  SameSlots-of : (a b : Limits.Limiter) → b ≡ a → SameSlots a b
  SameSlots-of a b e = record {
    same_cap = ap cap e;
    same_current = λ id. ap (λ l. Limits.current l id) e;
  }

  -- A whole request, run alone.
  pub handle-SameSlots :
      (user : AuthUser) (q : Request) (w : World St Q)
      → SameSlots w.limiter (handle v user q w).limiter
  unfolding handle
  handle-SameSlots user (init id payload key) w =
      SameSlots-of _ _ ((init_upload-limiter v id payload key user).run w refl)
  handle-SameSlots user (chunk schedule r) w = record {
    same_cap = upload_chunk-cap schedule r user w;
    same_current = upload_chunk-current v schedule r w user;
  }
  handle-SameSlots user (complete id key) w =
      SameSlots-of _ _ ((complete_upload-limiter v id key user).run w refl)
  handle-SameSlots user (missing id) w =
      SameSlots-of _ _ ((missing_chunks-limiter id user).run w refl)
  handle-SameSlots user (fetch id range) w =
      SameSlots-of _ _ ((download-limiter v id range user).run w refl)
