-- ===== src/Uploads/Contents/Local.antt =====
-- A request on a chunk with the worker pool and the files of `LocalChunkStorage`: what it does to
-- the files and to the rows together.
use distributed_file_service.Uploads.Sound.Steps.{chunks-add_chunk_request}
use distributed_file_service.Uploads.ChunkUpload.{
  ChunkRequest, UploadChunkResponse, count_chunk, limited, new_chunk, put_chunk, record_chunk,
  store_and_record, upload_chunk, write_of,
}
use distributed_file_service.Uploads.Access.Cases.{get_owned_cases}
use distributed_file_service.Uploads.ChunkUpload.Effect.{frame_of}
use distributed_file_service.Uploads.ChunkUpload.Checks.{check_chunk_cases, chunk_replay_cases}
use distributed_file_service.Limits.{acquire}
use distributed_file_service.Models.{Chunk, Db, Upload, constraints_hold, uploaded}
use distributed_file_service.Prelude.Int.{pos_part}
use distributed_file_service.Prelude.{
  Bool-cases, Option, ap, arith, false, inl, inr, length, none, refl, some, subst, suc, ℕ, ◌∙◌, ◌≡◌,
  ◌⊎◌,
}
use distributed_file_service.Text.{Bytes, Text}
use distributed_file_service.Exec.{Outcome, modify, ok, pure, raised, ◌>>◌}
use distributed_file_service.Exec.Cases.{bind_cases, run_cases}
use distributed_file_service.Dict.{insert}
use distributed_file_service.Config.{Settings, use_external_durable_queue}
use distributed_file_service.DurableQueue.{DurableQueue}
use distributed_file_service.Storage.{chunk_key}
use distributed_file_service.Storage.Local.{Files}
use distributed_file_service.World.{AuthUser, World, commit, in_session, or_run}
use distributed_file_service.Uploads.Persist.{Schedule, Stored, persist_with_retries}
use distributed_file_service.Uploads.Contents.{on_disk}
use distributed_file_service.Uploads.Contents.Pool.{Persisted, persist_with_retries-Persisted}

module _ {Q : Type 0} (config : Settings) (queue : DurableQueue Q) (sha256 : Bytes → Text)
    (schedule : Schedule) (on_pool : use_external_durable_queue config ≡ false) where
  -- What a request does to the files and the rows: nothing; or its body is in its file, and the rows
  -- are as they were or have the row of the chunk, with the key of that file.
  abbrev pub OnDisk :
      ChunkRequest → World Files Q → Outcome UploadChunkResponse × World Files Q → Type 0
  OnDisk r w p =
      ((p.1.store ≡ w.store) × (p.1.db.chunks ≡ w.db.chunks))
      ⊎ ((p.1.store ≡ insert (chunk_key r.upload_id (pos_part r.chunk_index)) r.body w.store)
          × ((p.1.db.chunks ≡ w.db.chunks)
              ⊎ (c : Chunk) × (c.upload_id ≡ r.upload_id)
                × (c.chunk_index ≡ pos_part r.chunk_index)
                × (c.s3_key ≡ chunk_key r.upload_id (pos_part r.chunk_index))
                × (p.1.db.chunks ≡ put_chunk c w.db.chunks)))

  commit_row :
      (r : ChunkRequest) (u : Upload) (w : World Files Q) (stored : Stored) (retries : ℕ)
      (w₀ : World Files Q)
      → w.session ≡ w₀.db
      → w.db ≡ w₀.db
      → w.store ≡ insert (chunk_key r.upload_id (pos_part r.chunk_index)) r.body w₀.store
      → stored.0 ≡ chunk_key r.upload_id (pos_part r.chunk_index)
      → OnDisk r w₀ (
          (do
            modify (λ w.
                in_session
                  (record_chunk
                    (write_of u r)
                    (sha256 r.body)
                    r.idempotency_key
                    stored
                    retries
                    w.now)
                  w)
            commit
            modify (count_chunk (length r.body))
            pure (record {
              upload_id = r.upload_id;
              chunk_index = pos_part r.chunk_index;
              status = uploaded;
            }))
            w)
  unfolding commit record_chunk
  commit_row r u w stored retries w₀ session db put key =
      elim (Bool-cases (
        constraints_hold (
          record_chunk (write_of u r) (sha256 r.body) r.idempotency_key stored retries w.now
            w.session))) [
              | inl c ↦ rw c (
                  inr (
                    put,
                    inr (
                      new_chunk (write_of u r) (sha256 r.body) stored retries w.now,
                      refl,
                      refl,
                      key,
                      rw (chunks-add_chunk_request, session) refl,
                    ),
                  ))
              | inr c ↦ rw c (inr (put, inl (ap (λ (d : Db). d.chunks) db)))
            ]

  store_and_record-OnDisk :
      (r : ChunkRequest) (u : Upload) (w₀ w : World Files Q)
      → w.session ≡ w₀.db
      → w.db ≡ w₀.db
      → w.store ≡ w₀.store
      → OnDisk r w₀ (
          store_and_record
            (on_disk config queue sha256)
            schedule
            (write_of u r)
            (sha256 r.body)
            r.idempotency_key
            w)
  unfolding store_and_record
  store_and_record-OnDisk r u w₀ w session db store =
      bind_cases (OnDisk r w₀)
        (persist_with_retries (suc config.max_retries) (on_disk config queue sha256) schedule 0
          (write_of u r))
        _ w
        (λ stored w₂ e.
          let same =
            frame_of (on_disk config queue sha256) schedule r w w₂ (suc config.max_retries) 0
              (write_of u r) (ok stored) e in
          elim (subst (Persisted (λ s o. (n : ℕ) × (o ≡ ok (s, n))) (write_of u r) w.store) e (
            persist_with_retries-Persisted config queue sha256 schedule on_pool
              (suc config.max_retries) 0 (write_of u r) w)) [
                | inl (kept, x, q) ↦ absurd (ground (arith, q))
                | inr (put, (n, q)) ↦
                    commit_row r u w₂ stored.0 stored.1 w₀ (same.session ∙ session) (same.db ∙ db)
                      (rw store at put) (ground (arith, q))
              ])
        (λ x w₂ e.
          let same =
            frame_of (on_disk config queue sha256) schedule r w w₂ (suc config.max_retries) 0
              (write_of u r) (raised x) e in
          elim (subst (Persisted (λ s o. (n : ℕ) × (o ≡ ok (s, n))) (write_of u r) w.store) e (
            persist_with_retries-Persisted config queue sha256 schedule on_pool
              (suc config.max_retries) 0 (write_of u r) w)) [
                | inl (kept, y, q) ↦ inl (kept ∙ store, ap (λ (d : Db). d.chunks) (same.db ∙ db))
                | inr (put, (n, q)) ↦ absurd (ground (arith, q))
              ])

  or_write-OnDisk :
      (replay : Option UploadChunkResponse) (r : ChunkRequest) (u : Upload) (w : World Files Q)
      → w.session ≡ w.db
      → OnDisk r w (
          or_run replay
            (limited r.upload_id (
              store_and_record
                (on_disk config queue sha256)
                schedule
                (write_of u r)
                (sha256 r.body)
                r.idempotency_key))
            w)
  unfolding limited
  or_write-OnDisk (some out) r u w fresh = inl (refl, refl)
  or_write-OnDisk none r u w fresh = elim (run_cases (acquire r.upload_id w.limiter)) [
    | inl (t, l, e) ↦
        rw e (store_and_record-OnDisk r u w (record w { limiter = l }) fresh refl refl)
    | inr (x, l, e) ↦ rw e (inl (refl, refl))
  ]

  pub upload_chunk-OnDisk :
      (r : ChunkRequest) (user : AuthUser) (w : World Files Q)
      → w.session ≡ w.db
      → OnDisk r w (upload_chunk (on_disk config queue sha256) schedule r user w)
  unfolding upload_chunk
  upload_chunk-OnDisk r user w fresh =
      let v = on_disk config queue sha256 in
      get_owned_cases (OnDisk r w) r.upload_id user _ w
        (λ u found owner.
          check_chunk_cases (OnDisk r w) v u r _ w
            (λ accepted.
              chunk_replay_cases (OnDisk r w) r.upload_id (pos_part r.chunk_index) (sha256 r.body)
                r.idempotency_key _ w (λ replay. or_write-OnDisk replay r u w fresh)
                (λ e. inl (refl, refl)))
            (λ e. inl (refl, refl)))
        (λ e. inl (refl, refl))
