-- ===== src/Uploads/Interleaved/Forward.antt =====
-- The status of an upload under interleaved requests. A request on a chunk decides on the status
-- that it loaded, so one that loaded INITIATED and comes late sets IN_PROGRESS again over COMPLETED;
-- as long as no such request waits, the status goes forward only.
pub mod Onward
use distributed_file_service.Prelude.{
  Bool, Bool-cases, List, Option, [], arith, false, find, inl, inr, is_some, none, not, refl, some,
  suc, true, update, ℕ, ◌&&◌, ◌∷◌, ◌≡◌,
}
use distributed_file_service.Text.{Text, codes, text_eq, text_eq_iff, truthy}
use distributed_file_service.Exec.{Outcome, ok, raised}
use distributed_file_service.Json.{str}
use distributed_file_service.Models.{
  Upload, completed, constraints_hold, has_id, is_completed, is_initiated, Chunk,
}
use distributed_file_service.Models.Rows.{find-update_upload}
use distributed_file_service.Limits
use distributed_file_service.World.{Service, World, commit, fingerprint, open_session}
use distributed_file_service.Uploads.Persist.{Stored, persist_with_retries}
use distributed_file_service.Uploads.Persist.Frame.{
  SameData, SameData-refl, persist_with_retries-frame,
}
use distributed_file_service.Uploads.ChunkUpload.{ChunkRequest, UploadChunkResponse, write_of}
use distributed_file_service.Uploads.Complete.{
  add_complete_request, complete_again, has_key, mark_completed, mark_upload, or_empty,
}
use distributed_file_service.Uploads.Serve.Lifecycle.{
  Advances, Advances-trans, is_alive, uploads-add_chunk_request, uploads-add_complete_request,
}
use distributed_file_service.Uploads.Interleaved.Chunks.{
  ChunkPhase, admit, admitted, advance_chunk, after_acquire, after_persist, body_phase,
  chunk_answered, commit_chunk, holding, looked_up, persisted, reading, start_loaded, try_commit,
}
use distributed_file_service.Uploads.Interleaved.Completion.{
  CompletePhase, advance_complete, assemble, assembled, complete_answered, counted, listed, loaded,
  next_phase,
}
use distributed_file_service.Uploads.Interleaved.Systems.{
  Thread, advance_thread, chunk_thread, complete_thread,
}
use distributed_file_service.Uploads.Interleaved.Tables.ChunkSteps.{admit-world}
use distributed_file_service.Uploads.Interleaved.Tables.CompleteSteps.{assemble-frame}

-- A request on a chunk that waits and has loaded its upload as INITIATED.
abbrev pub loaded_initiated : ChunkPhase → Bool
loaded_initiated (reading u) = is_initiated u.status
loaded_initiated (admitted u) = is_initiated u.status
loaded_initiated (holding u) = is_initiated u.status
loaded_initiated (persisted u s n) = is_initiated u.status
loaded_initiated (looked_up u s n e) = is_initiated u.status
loaded_initiated (chunk_answered o) = false

unfoldable pub is_stale_load : Text → Thread → Bool
is_stale_load id (chunk_thread s r phase) = text_eq r.upload_id id && loaded_initiated phase
is_stale_load id (complete_thread i key phase) = false

-- The row of the upload `u`, later: ahead of it, and at work.
pub record Ahead (id : Text) (u : Upload) (us : List Upload) : Type 0 where
  pub row : Upload
  pub found : find (has_id id) us ≡ some row
  pub ahead : Advances u row
  pub started : is_initiated row.status ≡ false
  pub alive : is_alive row.status ≡ true

module _ (id : Text) (u : Upload) where
  Ahead-same : (us vs : List Upload) → vs ≡ us → Ahead id u us → Ahead id u vs
  Ahead-same us vs e h = rw e h

  Ahead-update :
      (i : Text) (f : Upload → Upload) (us : List Upload)
      → ((x : Upload) → (f x).id ≡ x.id)
      → (i ≡ id
          → (x : Upload) → is_initiated x.status ≡ false
          → is_alive x.status ≡ true
          → Advances x (f x) × (is_initiated (f x).status ≡ false))
      → Ahead id u us
      → Ahead id u (update (has_id i) f us)
  Ahead-update i f us same_id ok_f h = elim (Bool-cases (text_eq i id)) [
    | inl k ↦
        let (a, s) = ok_f ((text_eq_iff i id).0 k) h.row h.started h.alive in
        record {
          row = f h.row;
          found = ground (arith, find-update_upload i id f us same_id, k, h.found);
          ahead = Advances-trans h.ahead a;
          started = s;
          alive = a.alive h.alive;
        }
    | inr k ↦ record {
      row = h.row;
      found = ground (arith, find-update_upload i id f us same_id, k, h.found);
      ahead = h.ahead;
      started = h.started;
      alive = h.alive;
    }
  ]

  module _ {St Q : Type 0} (v : Service St Q) where
    -- One step of a waiting request.
    abbrev pub Forward : Thread × World St Q → Type 0
    Forward p = Ahead id u p.1.db.uploads × (is_stale_load id p.0 ≡ false)

    try_commit-Ahead :
        (r : ChunkRequest) (up : Upload) (s : Stored) (n : ℕ) (e : Option Chunk) (w : World St Q)
        → (text_eq r.upload_id id && is_initiated up.status) ≡ false
        → Ahead id u w.db.uploads
        → Ahead id u (try_commit v r up s n e w).1.db.uploads
          × ((text_eq r.upload_id id && loaded_initiated (try_commit v r up s n e w).0) ≡ false)
    unfolding try_commit commit_chunk
    try_commit-Ahead r up s n e w fresh h =
        elim (Bool-cases (
          constraints_hold (
            commit_chunk up e (write_of up r) (v.sha256 r.body) r.idempotency_key s n w.now
              w.db))) [
                | inr c ↦ rw c (h, ground arith)
                | inl c ↦ rw c (
                  rw
                      (uploads-add_chunk_request r.idempotency_key (write_of up r) (v.sha256 r.body)
                        w.now _)
                      (Ahead-update r.upload_id (start_loaded up w.now) w.db.uploads (λ x. refl)
                        (λ k x a b.
                          let same : is_initiated up.status ≡ false =
                            ground (arith, fresh, text_eq_iff r.upload_id id, k) in
                          rw same (
                            record {
                              created = refl;
                              id = refl;
                              owner = refl;
                              name = refl;
                              size = refl;
                              chunk_size = refl;
                              chunks = refl;
                              checksum = refl;
                              forward = omega arith;
                              alive = λ q. q;
                            },
                            a,
                          ))
                        h),
                  ground arith,
                )
              ]

    after_acquire-fresh :
        (r : ChunkRequest) (up : Upload) (o : Outcome (Unit {0}))
        → (text_eq r.upload_id id && is_initiated up.status) ≡ false
        → (text_eq r.upload_id id && loaded_initiated (after_acquire up o)) ≡ false
    after_acquire-fresh r up (ok t) h = h
    after_acquire-fresh r up (raised e) h = ground arith

    body_phase-fresh :
        (r : ChunkRequest) (up : Upload) (o : Outcome (Option UploadChunkResponse))
        → (text_eq r.upload_id id && is_initiated up.status) ≡ false
        → (text_eq r.upload_id id && loaded_initiated (body_phase up o)) ≡ false
    body_phase-fresh r up (ok none) h = h
    body_phase-fresh r up (ok (some out)) h = ground arith
    body_phase-fresh r up (raised e) h = ground arith

    after_persist-Ahead :
        (r : ChunkRequest) (up : Upload) (w : World St Q) (p : Outcome (Stored × ℕ) × World St Q)
        → SameData w p.1
        → (text_eq r.upload_id id && is_initiated up.status) ≡ false
        → Ahead id u w.db.uploads
        → Ahead id u (after_persist up r.upload_id p).1.db.uploads
          × ((text_eq r.upload_id id && loaded_initiated (after_persist up r.upload_id p).0)
              ≡ false)
    after_persist-Ahead r up w (ok (s, n), w₁) same fresh h = (rw same.db h, fresh)
    after_persist-Ahead r up w (raised e, w₁) same fresh h = (rw same.db h, ground arith)

    complete_again-uploads :
        (up : Upload) (print : Text) (key : Option Text) (w : World St Q)
        → w.session ≡ w.db
        → (complete_again up print key w).1.db.uploads ≡ w.db.uploads
    unfolding complete_again commit
    complete_again-uploads up print key w same =
        elim (Bool-cases (
          truthy key
          && not (is_some (find (has_key (or_empty key)) w.session.complete_requests)))) [
            | inr old ↦ rw old refl
            | inl new ↦
                rw new
                  (elim (Bool-cases
                    (constraints_hold (add_complete_request key up.id print w.now w.session))) [
                      | inl c ↦
                          rw (c, same) (uploads-add_complete_request key up.id print w.now w.db)
                      | inr c ↦ rw c refl
                    ])
          ]

    mark_upload-Ahead :
        (up : Upload) (print : Text) (key : Option Text) (w : World St Q)
        → w.session ≡ w.db
        → Ahead id u w.db.uploads
        → Ahead id u (mark_upload up print key w).1.db.uploads
    unfolding mark_upload commit
    mark_upload-Ahead up print key w same h =
        elim (Bool-cases (
          constraints_hold
            (add_complete_request key up.id print w.now (mark_completed up.id w.now w.session)))) [
              | inr c ↦ rw c h
              | inl c ↦
                  rw (c, same)
                    (rw (uploads-add_complete_request key up.id print w.now _) (
                      Ahead-update up.id (λ x. record x { status = completed; updated_at = w.now })
                        w.db.uploads (λ x. refl) (λ k x a b. (ground (arith, a, b), refl)) h))
            ]

    next_phase-db :
        {A : Type 0} (next : CompletePhase) (p : Outcome A × World St Q)
        → (next_phase next p).1.db ≡ p.1.db
    next_phase-db next (ok a, w) = refl
    next_phase-db next (raised e, w) = refl

    advance_complete-Ahead :
        (i : Text) (key : Option Text) (phase : CompletePhase) (w : World St Q)
        → Ahead id u w.db.uploads
        → Ahead id u (advance_complete v i key phase w).1.db.uploads
    unfolding advance_complete
    advance_complete-Ahead i key (loaded up) w h = elim (Bool-cases (is_completed up.status)) [
      | inl e ↦ rw e (
          Ahead-same w.db.uploads _
            (complete_again-uploads up (fingerprint v ((codes "upload_id", str i) ∷ [])) key
              (open_session w) refl)
            h)
      | inr e ↦ rw e h
    ]
    advance_complete-Ahead i key (counted up) w h = h
    advance_complete-Ahead i key (listed up cs) w h =
        rw (next_phase-db (assembled up) (assemble v up cs w), (assemble-frame v i key up cs w).db)
          h
    advance_complete-Ahead i key (assembled up) w h =
        mark_upload-Ahead up (fingerprint v ((codes "upload_id", str i) ∷ [])) key (open_session w)
          refl h
    advance_complete-Ahead i key (complete_answered o) w h = h

    pub advance_thread-Forward :
        (t : Thread) (w : World St Q)
        → is_stale_load id t ≡ false
        → Ahead id u w.db.uploads
        → Forward (advance_thread v t w)
    unfolding advance_thread is_stale_load advance_chunk
    advance_thread-Forward (chunk_thread s r (reading up)) w fresh h =
        rw (admit-world v r (open_session w))
          (h, body_phase-fresh r up (admit v r (open_session w)).0 fresh)
    advance_thread-Forward (chunk_thread s r (admitted up)) w fresh h =
        (h, after_acquire-fresh r up (Limits.acquire r.upload_id w.limiter).0 fresh)
    advance_thread-Forward (chunk_thread s r (holding up)) w fresh h =
        after_persist-Ahead r up w
          (persist_with_retries (suc v.config.max_retries) v s 0 (write_of up r) w)
          ((persist_with_retries-frame (suc v.config.max_retries) v s 0 (write_of up r)).run w
            (SameData-refl w))
          fresh h
    advance_thread-Forward (chunk_thread s r (persisted up k n)) w fresh h = (h, fresh)
    advance_thread-Forward (chunk_thread s r (looked_up up k n e)) w fresh h =
        try_commit-Ahead r up k n e w fresh h
    advance_thread-Forward (chunk_thread s r (chunk_answered o)) w fresh h = (h, fresh)
    advance_thread-Forward (complete_thread i key phase) w fresh h =
        (advance_complete-Ahead i key phase w h, refl)
