-- ===== src/Uploads/Interleaved/Tables/Runs.antt =====
-- The tables after any events.
use distributed_file_service.Models.Rows.{count-append}
use distributed_file_service.Uploads.Persist.{Schedule}
use distributed_file_service.Prelude.{
  All, List, Option, Option-cases, [], arith, count, find, inl, inr, none, refl, some, suc, true,
  zero, ℕ, ◌∷◌, ◌≡◌, ◌≤◌,
}
use distributed_file_service.Text.{Text}
use distributed_file_service.Models.Columns.{rewritten}
use distributed_file_service.Models.{
  Chunk, Db, Upload, is_chunk, is_initiated, uploaded_of, is_uploaded,
}
use distributed_file_service.World.{AuthUser, Service, World, open_session}
use distributed_file_service.Uploads.Init.{add_init_request, init_fingerprint, new_upload}
use distributed_file_service.Uploads.Init.Effect.{init_upload-effect, set_if, multipart_of}
use distributed_file_service.Uploads.ChunkUpload.{
  ChunkRequest, new_chunk, put_chunk, record_chunk, write_of,
}
use distributed_file_service.Uploads.ChunkUpload.Effect.{Written, upload_chunk-effect}
use distributed_file_service.Uploads.Complete.{add_complete_request}
use distributed_file_service.Uploads.Complete.Effect.{complete_upload-effect}
use distributed_file_service.Uploads.Download.Frame.{download-frame, missing_chunks-frame}
use distributed_file_service.Uploads.Sound.{IsSound}
use distributed_file_service.Uploads.Sound.Rows.{put_chunk-new, put_chunk-old}
use distributed_file_service.Uploads.Sound.Steps.{chunks-add_chunk_request}
use distributed_file_service.Uploads.Serve.{Request, chunk, complete, fetch, handle, init, missing}
use distributed_file_service.Uploads.Serve.Invariant.{handle-IsSound}
use distributed_file_service.Uploads.Serve.Lifecycle.{Advances, handle-Kept}
use distributed_file_service.Uploads.Interleaved.Systems.{
  Event, System, Thread, advance_at, advance_thread, advances, chunk_comes, chunk_thread,
  clock_shows, complete_comes, complete_thread, other_comes, run, step,
}
use distributed_file_service.Uploads.Interleaved.Commits.Rows.{count-update_more}
use distributed_file_service.Uploads.Interleaved.Tables.{
  All-Grows, Pending, Pending-Grows, Stepped, Stepped-same,
}
use distributed_file_service.Uploads.Interleaved.Tables.ChunkSteps.{
  advance_chunk-Steps, load_for_chunk-Loads,
}
use distributed_file_service.Uploads.Interleaved.Tables.CompleteSteps.{
  advance_complete-Steps, load-Loads,
}

chunks-set_if :
    (m : Option (Option Text)) (id : Text) (db : Db) → (set_if m id db).chunks ≡ db.chunks
chunks-set_if none id db = refl
chunks-set_if (some m) id db = refl

chunks-add_init_request :
    (key : Option Text) (id print : Text) (now : ℕ) (db : Db)
    → (add_init_request key id print now db).chunks ≡ db.chunks
chunks-add_init_request none id print now db = refl
chunks-add_init_request (some []) id print now db = refl
chunks-add_init_request (some (c ∷ key)) id print now db = refl

chunks-add_complete_request :
    (key : Option Text) (id print : Text) (now : ℕ) (db : Db)
    → (add_complete_request key id print now db).chunks ≡ db.chunks
chunks-add_complete_request none id print now db = refl
chunks-add_complete_request (some []) id print now db = refl
chunks-add_complete_request (some (c ∷ key)) id print now db = refl

count-put_more :
    (id : Text) (c : Chunk) (cs : List Chunk)
    → is_uploaded c.status ≡ true
    → count (uploaded_of id) cs ≤ count (uploaded_of id) (put_chunk c cs)
count-put_more id c cs up = elim (Option-cases (find (is_chunk c.upload_id c.chunk_index) cs)) [
  | inl e ↦ rw (put_chunk-new c cs e) (omega (arith, count-append (uploaded_of id) cs (c ∷ [])))
  | inr (x, e) ↦ rw (put_chunk-old c cs x e) (
      count-update_more id c (rewritten c) cs (λ d. unfold rewritten in refl)
        (λ d h. unfold rewritten in up))
]

Written-more :
    {St Q : Type 0} (v : Service St Q) (schedule : Schedule) (r : ChunkRequest) (user : AuthUser)
    (w : World St Q) (after : Db) (id : Text)
    → Written v schedule r user w after
    → count (uploaded_of id) w.db.chunks ≤ count (uploaded_of id) after.chunks
unfolding record_chunk
Written-more v schedule r user w after id e =
    let c = new_chunk (write_of e.upload r) (v.sha256 r.body) e.stored e.retries e.ended.now in
    rw
      (
        e.recorded,
        chunks-add_chunk_request r.idempotency_key (write_of e.upload r) (v.sha256 r.body)
            e.ended.now _,
      )
      (count-put_more id c w.db.chunks refl)

module _ {St Q : Type 0} (v : Service St Q) where
  handle-more :
      (user : AuthUser) (q : Request) (w : World St Q) (id : Text)
      → w.session ≡ w.db
      → count (uploaded_of id) w.db.chunks ≤ count (uploaded_of id) (handle v user q w).db.chunks
  unfolding handle
  handle-more user (init i payload key) w id fresh =
      elim (init_upload-effect v i payload key user w fresh) [
        | inl same ↦ rw same (omega arith)
        | inr c ↦
            rw
              (
                c.recorded,
                chunks-add_init_request key i (init_fingerprint v payload) w.now _,
                chunks-set_if (multipart_of v (new_upload v i payload user w.now) w.store) i _,
              )
              (omega arith)
      ]
  handle-more user (chunk schedule r) w id fresh =
      elim (upload_chunk-effect v schedule r user w fresh) [
        | inl same ↦ rw same (omega arith)
        | inr c ↦ Written-more v schedule r user w _ id c
      ]
  handle-more user (complete i key) w id fresh =
      elim (complete_upload-effect v i key w user fresh) [
        | inl same ↦ rw same (omega arith)
        | inr (inl c) ↦
            rw (c.recorded, chunks-add_complete_request key i c.print c.now _) (omega arith)
        | inr (inr c) ↦
            rw (c.recorded, chunks-add_complete_request key i c.print c.now _) (omega arith)
      ]
  handle-more user (missing i) w id fresh = rw (missing_chunks-frame i user w) (omega arith)
  handle-more user (fetch i range) w id fresh = rw (download-frame v i range user w) (omega arith)

  handle-Stepped :
      (user : AuthUser) (q : Request) (w : World St Q)
      → w.session ≡ w.db
      → IsSound w.db
      → Stepped w.db (handle v user q w).db
  handle-Stepped user q w fresh h = record {
    sound = handle-IsSound v user q w fresh h;
    grows = record {
      kept = λ id u e.
          let (t, n, a) = handle-Kept v user q w id u fresh e in
          (t, n, a.chunks, not_initiated u t a);
      more = λ id. handle-more user q w id fresh;
    };
  }
    where
      not_initiated :
          (u t : Upload)
          → Advances u t
          → is_initiated t.status ≡ true
          → is_initiated u.status ≡ true
      not_initiated u t a e = ground (arith, a.forward, e)

  -- What the tables and the waiting requests keep.
  pub record Safe (db : Db) (ts : List Thread) : Type 0 where
    pub sound : IsSound db
    pub pending : All (Pending db) ts

  advance_thread-Steps :
      (t : Thread) (w : World St Q)
      → Pending w.db t
      → IsSound w.db
      → Stepped w.db (advance_thread v t w).1.db
        × Pending (advance_thread v t w).1.db (advance_thread v t w).0
  unfolding advance_thread
  advance_thread-Steps (chunk_thread schedule r phase) w p h =
      advance_chunk-Steps v r schedule phase w p h
  advance_thread-Steps (complete_thread id key phase) w p h =
      advance_complete-Steps v id key phase w p h

  advance_at-Steps :
      (n : ℕ) (ts : List Thread) (w : World St Q)
      → All (Pending w.db) ts
      → IsSound w.db
      → Stepped w.db (advance_at v n ts w).1.db
        × All (Pending (advance_at v n ts w).1.db) (advance_at v n ts w).0
  unfolding advance_at
  advance_at-Steps n [] w p h = (Stepped-same w.db w.db refl h, tt)
  advance_at-Steps zero (t ∷ ts) w p h =
      let (s, q) = advance_thread-Steps t w p.0 h in (s, (q, All-Grows ts s.grows p.1))
  advance_at-Steps (suc n) (t ∷ ts) w p h =
      let (s, q) = advance_at-Steps n ts w p.1 h in (s, (Pending-Grows t s.grows p.0, q))

  step-Safe :
      (e : Event) (s : System St Q)
      → Safe s.world.db s.threads
      → Safe (step v e s).world.db (step v e s).threads
  unfolding step
  step-Safe (chunk_comes schedule r user) s h =
      let (same, p) = load_for_chunk-Loads v r user (open_session s.world) refl in
      let st = Stepped-same s.world.db _ same h.sound in
      record { sound = st.sound; pending = (rw same p, All-Grows s.threads st.grows h.pending) }
  step-Safe (complete_comes id key user) s h =
      let (same, p) = load-Loads v id key user (open_session s.world) refl in
      let st = Stepped-same s.world.db _ same h.sound in
      record { sound = st.sound; pending = (rw same p, All-Grows s.threads st.grows h.pending) }
  step-Safe (other_comes request user) s h =
      let st = handle-Stepped user request (open_session s.world) refl h.sound in
      record { sound = st.sound; pending = All-Grows s.threads st.grows h.pending }
  step-Safe (advances n) s h =
      let (st, p) = advance_at-Steps n s.threads s.world h.pending h.sound in
      record { sound = st.sound; pending = p }
  step-Safe (clock_shows time) s h = record { sound = h.sound; pending = h.pending }

  run-Safe :
      (es : List Event) (s : System St Q)
      → Safe s.world.db s.threads
      → Safe (run v es s).world.db (run v es s).threads
  unfolding run
  run-Safe [] s h = h
  run-Safe (e ∷ es) s h = run-Safe es (step v e s) (step-Safe e s h)

  -- However requests on chunks and on completion overtake each other, from sound tables with no
  -- request waiting the tables stay sound: each completed upload has as many uploaded chunks as it
  -- announced, every chunk belongs to an upload and has an index in it, an upload in the first
  -- state has none, and no chunk is there twice.
  pub run-IsSound :
      (es : List Event) (w : World St Q)
      → IsSound w.db
      → IsSound (run v es (record { world = w; threads = [] })).world.db
  run-IsSound es w h =
      (run-Safe es (record { world = w; threads = [] }) (record { sound = h; pending = tt })).sound
