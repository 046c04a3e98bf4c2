-- ===== src/Uploads/Interleaved/Alone/Held.antt =====
-- From the limiter on, the steps of a request on a chunk do what `upload_chunk` does.
use distributed_file_service.Prelude.{
  Bool-cases, Option, find, inl, inr, length, none, refl, some, suc, true, ℕ, ◌≡◌,
}
use distributed_file_service.Prelude.Int.{pos_part}
use distributed_file_service.Exec.Cases.{run_cases}
use distributed_file_service.Exec.{Outcome, modify, ok, pure, raised, try_finally, ◌>>◌}
use distributed_file_service.Models.{Upload, constraints_hold, has_id, is_chunk, uploaded}
use distributed_file_service.Limits
use distributed_file_service.World.{Service, World, commit, in_session, or_run}
use distributed_file_service.Uploads.Persist.{Schedule, Stored, persist_with_retries}
use distributed_file_service.Uploads.Persist.Frame.{
  SameData, SameData-refl, persist_with_retries-frame,
}
use distributed_file_service.Uploads.ChunkUpload.{
  ChunkRequest, UploadChunkResponse, count_chunk, limited, record_chunk, store_and_record, write_of,
}
use distributed_file_service.Uploads.Interleaved.Chunks.{
  ChunkPhase, admitted, advance_chunk, after_persist, body_phase, chunk_answered, commit_chunk,
  released, try_commit,
}
use distributed_file_service.Uploads.Interleaved.Alone.Records.{record_chunk-commit}

module _ {St Q : Type 0} (v : Service St Q) (schedule : Schedule) (r : ChunkRequest) where
  -- The steps of the request, one after the other.
  unfoldable pub to_the_end : ChunkPhase → World St Q → ChunkPhase × World St Q
  to_the_end phase w =
      let (p₁, w₁) = advance_chunk v schedule r phase w in
      let (p₂, w₂) = advance_chunk v schedule r p₁ w₁ in
      let (p₃, w₃) = advance_chunk v schedule r p₂ w₂ in advance_chunk v schedule r p₃ w₃

  -- The answer, and the shared state; the session is the request's own.
  abbrev pub Same : Outcome UploadChunkResponse × World St Q → ChunkPhase × World St Q → Type 0
  Same p q = (q.0 ≡ chunk_answered p.0) × (q.1 ≡ record p.1 { session = q.1.session })

  pub answered-Same :
      (o : Outcome UploadChunkResponse) (w : World St Q)
      → Same (o, w) (to_the_end (chunk_answered o) w)
  unfolding to_the_end advance_chunk
  answered-Same o w = (refl, refl)

  recorded-commit :
      (u : Upload) (s : Stored) (n : ℕ) (w : World St Q)
      → w.session ≡ w.db
      → constraints_hold w.db ≡ true
      → find (has_id r.upload_id) w.db.uploads ≡ some u
      → record_chunk (write_of u r) (v.sha256 r.body) r.idempotency_key s n w.now w.session
        ≡ commit_chunk u
            (find (is_chunk r.upload_id (pos_part r.chunk_index)) w.db.chunks)
            (write_of u r)
            (v.sha256 r.body)
            r.idempotency_key
            s
            n
            w.now
            w.db
  recorded-commit u s n w fresh c found = rw fresh (
      record_chunk-commit u (write_of u r) (v.sha256 r.body) r.idempotency_key s n w.now w.db c
        found)

  -- From the commit on.
  committed-Same :
      (u : Upload) (s : Stored) (n : ℕ) (w : World St Q)
      → w.session ≡ w.db
      → constraints_hold w.db ≡ true
      → find (has_id r.upload_id) w.db.uploads ≡ some u
      → Same
          (try_finally
            (do
              modify (λ w.
                  in_session
                    (record_chunk (write_of u r) (v.sha256 r.body) r.idempotency_key s n w.now)
                    w)
              commit
              modify (count_chunk (length r.body))
              pure (record {
                upload_id = r.upload_id;
                chunk_index = pos_part r.chunk_index;
                status = uploaded;
              }))
            (released r.upload_id)
            w)
          (try_commit v r u s n
            (find (is_chunk r.upload_id (pos_part r.chunk_index)) w.db.chunks)
            w)
  unfolding commit try_commit
  committed-Same u s n w fresh c found =
      rw (recorded-commit u s n w fresh c found)
        (elim (Bool-cases (
          constraints_hold (
            commit_chunk u (find (is_chunk r.upload_id (pos_part r.chunk_index)) w.db.chunks)
              (write_of u r) (v.sha256 r.body) r.idempotency_key s n w.now w.db))) [
                | inl k ↦ rw k (refl, refl)
                | inr k ↦ rw k (refl, refl)
              ])

  persisted-Same :
      (u : Upload) (w : World St Q) (p : Outcome (Stored × ℕ) × World St Q)
      → SameData w p.1
      → persist_with_retries (suc v.config.max_retries) v schedule 0 (write_of u r) w ≡ p
      → w.session ≡ w.db
      → constraints_hold w.db ≡ true
      → find (has_id r.upload_id) w.db.uploads ≡ some u
      → Same
          (try_finally
            (store_and_record v schedule (write_of u r) (v.sha256 r.body) r.idempotency_key)
            (released r.upload_id)
            w)
          (let (p₁, w₁) = after_persist u r.upload_id p in
            let (p₂, w₂) = advance_chunk v schedule r p₁ w₁ in advance_chunk v schedule r p₂ w₂)
  unfolding store_and_record advance_chunk
  persisted-Same u w (raised x, w₁) same e fresh c found = rw e (refl, refl)
  persisted-Same u w (ok (s, n), w₁) same e fresh c found =
      rw e (
        committed-Same u s n w₁ (rw (same.session, same.db) fresh) (rw same.db c)
          (rw same.db found))

  limited-Same :
      (u : Upload) (w : World St Q)
      → w.session ≡ w.db
      → constraints_hold w.db ≡ true
      → find (has_id r.upload_id) w.db.uploads ≡ some u
      → Same
          (limited r.upload_id
            (store_and_record v schedule (write_of u r) (v.sha256 r.body) r.idempotency_key)
            w)
          (to_the_end (admitted u) w)
  unfolding limited to_the_end advance_chunk
  limited-Same u w fresh c found = elim (run_cases (Limits.acquire r.upload_id w.limiter)) [
    | inr (x, l, e) ↦ rw e (refl, refl)
    | inl (t, l, e) ↦
        let w₁ : World St Q = record w { limiter = l } in
        rw e (
          unfold advance_chunk in
          persisted-Same u w₁
            (persist_with_retries (suc v.config.max_retries) v schedule 0 (write_of u r) w₁)
            ((persist_with_retries-frame (suc v.config.max_retries) v schedule 0 (write_of u r)).run
              w₁ (SameData-refl w₁))
            refl fresh c found)
  ]

  pub replayed-Same :
      (o : Option UploadChunkResponse) (u : Upload) (w : World St Q)
      → w.session ≡ w.db
      → constraints_hold w.db ≡ true
      → find (has_id r.upload_id) w.db.uploads ≡ some u
      → Same
          (or_run o
            (limited r.upload_id
              (store_and_record v schedule (write_of u r) (v.sha256 r.body) r.idempotency_key))
            w)
          (to_the_end (body_phase u (ok o)) w)
  replayed-Same none u w fresh c found = limited-Same u w fresh c found
  replayed-Same (some out) u w fresh c found = answered-Same (ok out) w
