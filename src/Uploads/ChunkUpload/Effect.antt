-- ===== src/Uploads/ChunkUpload/Effect.antt =====
-- What `upload_chunk` does to the database, on every branch.
use distributed_file_service.Uploads.Contents.Rows.{find-put_chunk}
use distributed_file_service.Text.{Text}
use distributed_file_service.Prelude.{
  Bool-cases, Option, ap, find, inl, inr, none, refl, some, subst, suc, sym, true, ℕ, ◌∙◌, ◌≡◌, ◌⊎◌,
  [], ◌∷◌, length,
}
use distributed_file_service.Prelude.Int.{pos_part}
use distributed_file_service.Exec.{Exec, Outcome, ok, raised}
use distributed_file_service.Exec.Cases.{bind_cases, run_cases}
use distributed_file_service.Models.{
  Db, Upload, constraints_hold, has_id, Chunk, is_chunk, uploaded,
}
use distributed_file_service.Limits.{Limiter, acquire}
use distributed_file_service.World.{AuthUser, Service, World, commit, or_run}
use distributed_file_service.Uploads.Access.Cases.{get_owned_cases}
use distributed_file_service.Uploads.Persist.{ChunkWrite, Schedule, Stored, persist_with_retries}
use distributed_file_service.Uploads.Persist.Frame.{
  SameData, SameData-refl, persist_with_retries-frame,
}
use distributed_file_service.Uploads.ChunkUpload.{
  ChunkRequest, UploadChunkResponse, limited, record_chunk, store_and_record, upload_chunk,
  write_of, new_chunk, put_chunk,
}
use distributed_file_service.Uploads.ChunkUpload.Checks.{
  Accepted, check_chunk_cases, chunk_replay_cases,
}

-- The tables have a row of the chunk, uploaded, with what was sent and what storing it returned.
pub record RowOf (c : ChunkWrite) (print : Text) (stored : Stored) (retries : ℕ) (db : Db)
    : Type 0 where
  pub row : Chunk
  pub there : find (is_chunk c.upload_id c.chunk_index) db.chunks ≡ some row
  pub size : row.size_bytes ≡ length c.bytes
  pub checksum : row.chunk_checksum_sha256 ≡ some print
  pub key : row.s3_key ≡ stored.0
  pub etag : row.s3_etag ≡ stored.1
  pub state : row.status ≡ uploaded
  pub tried : row.retry_count ≡ retries

put_chunk-RowOf :
    (c : ChunkWrite) (print : Text) (stored : Stored) (retries now : ℕ) (db after : Db)
    → after.chunks ≡ put_chunk (new_chunk c print stored retries now) db.chunks
    → RowOf c print stored retries after
put_chunk-RowOf c print stored retries now db after e =
    let (t, s, f) = find-put_chunk (new_chunk c print stored retries now) db.chunks in
    record {
      row = record (new_chunk c print stored retries now) { created_at = t; updated_at = s };
      there = rw e f;
      size = refl;
      checksum = refl;
      key = refl;
      etag = refl;
      state = refl;
      tried = refl;
    }

record_chunk-RowOf :
    (c : ChunkWrite) (print : Text) (key : Option Text) (stored : Stored) (retries now : ℕ)
    (db : Db)
    → RowOf c print stored retries (record_chunk c print key stored retries now db)
unfolding record_chunk
record_chunk-RowOf c print none stored retries now db =
    put_chunk-RowOf c print stored retries now db _ refl
record_chunk-RowOf c print (some []) stored retries now db =
    put_chunk-RowOf c print stored retries now db _ refl
record_chunk-RowOf c print (some (k ∷ key)) stored retries now db =
    put_chunk-RowOf c print stored retries now db _ refl

-- What a request of the user wrote, if it wrote: the row of its chunk, the status of the upload, and
-- the row of its idempotency key. `ended` is the state in which `persist_with_retries` returned, run
-- from the first try in the state with the slot taken.
pub record Written {St Q : Type 0} (v : Service St Q) (schedule : Schedule) (r : ChunkRequest)
    (user : AuthUser) (w : World St Q) (after : Db) : Type 0 where
  pub upload : Upload
  pub found : find (has_id r.upload_id) w.db.uploads ≡ some upload
  pub owner : upload.owner_id ≡ user.user_id
  pub accepted : Accepted v upload r
  pub stored : Stored
  pub retries : ℕ
  pub ended : World St Q
  pub persisted :
      persist_with_retries
        (suc v.config.max_retries)
        v
        schedule
        0
        (write_of upload r)
        (record w { limiter = (acquire r.upload_id w.limiter).1 })
      ≡ (ok (stored, retries), ended)
  pub recorded :
      after
      ≡ record_chunk
          (write_of upload r)
          (v.sha256 r.body)
          r.idempotency_key
          stored
          retries
          ended.now
          w.db
  pub row : RowOf (write_of upload r) (v.sha256 r.body) stored retries after
  pub consistent : constraints_hold after ≡ true

module _ {St Q : Type 0} (v : Service St Q) (schedule : Schedule) (r : ChunkRequest) where
  pub frame_of :
      (w w' : World St Q) (fuel retries : ℕ) (c : ChunkWrite) (o : Outcome (Stored × ℕ))
      → persist_with_retries fuel v schedule retries c w ≡ (o, w')
      → SameData w w'
  frame_of w w' fuel retries c o e =
      subst (λ (p : Outcome (Stored × ℕ) × World St Q). SameData w p.1) e
        ((persist_with_retries-frame fuel v schedule retries c).run w (SameData-refl w))

module _ {St Q : Type 0} (v : Service St Q) (schedule : Schedule) (r : ChunkRequest)
    (user : AuthUser) where
  -- Either the committed database is as it was, or the chunk was written.
  abbrev pub ChunkEffect : World St Q → Outcome UploadChunkResponse × World St Q → Type 0
  ChunkEffect w p = (p.1.db ≡ w.db) ⊎ Written v schedule r user w p.1.db

  store_and_record-effect :
      (w w₁ : World St Q) (u : Upload)
      → w.session ≡ w.db
      → w₁ ≡ record w { limiter = (acquire r.upload_id w.limiter).1 }
      → find (has_id r.upload_id) w.session.uploads ≡ some u
      → u.owner_id ≡ user.user_id
      → Accepted v u r
      → ChunkEffect w
          (store_and_record v schedule (write_of u r) (v.sha256 r.body) r.idempotency_key w₁)
  unfolding store_and_record commit
  store_and_record-effect w w₁ u fresh slot found owner accepted =
      let db₁ : w₁.db ≡ w.db = ap (λ (x : World St Q). x.db) slot in
      let session₁ : w₁.session ≡ w.session = ap (λ (x : World St Q). x.session) slot in
      bind_cases (ChunkEffect w)
        (persist_with_retries (suc v.config.max_retries) v schedule 0 (write_of u r)) _ w₁
        (λ stored w₂ e.
          let same =
            frame_of v schedule r w₁ w₂ (suc v.config.max_retries) 0 (write_of u r) (ok stored) e in
          let s =
            record_chunk (write_of u r) (v.sha256 r.body) r.idempotency_key stored.0 stored.1 w₂.now
              w₂.session in
          elim (Bool-cases (constraints_hold s)) [
            | inl c ↦ rw c (
                inr (record {
                  upload = u;
                  found = rw fresh at found;
                  accepted = accepted;
                  owner = owner;
                  stored = stored.0;
                  retries = stored.1;
                  ended = w₂;
                  persisted =
                      ap
                        (persist_with_retries (suc v.config.max_retries) v schedule 0
                          (write_of u r))
                        (sym slot)
                      ∙ e;
                  recorded = rw (same.session, session₁, fresh);
                  row =
                      record_chunk-RowOf (write_of u r) (v.sha256 r.body) r.idempotency_key stored.0
                        stored.1 w₂.now w₂.session;
                  consistent = c;
                }))
            | inr c ↦ rw c (inl (same.db ∙ db₁))
          ])
        (λ e w₂ x. inl ((frame_of v schedule r w₁ w₂ _ 0 (write_of u r) (raised e) x).db ∙ db₁))

  limited-effect :
      (w : World St Q) (body : Exec (World St Q) UploadChunkResponse)
      → ((w₁ : World St Q)
          → w₁ ≡ record w { limiter = (acquire r.upload_id w.limiter).1 }
          → ChunkEffect w (body w₁))
      → ChunkEffect w (limited r.upload_id body w)
  unfolding limited
  limited-effect w body k = elim (run_cases (acquire r.upload_id w.limiter)) [
    | inl (t, l, e) ↦ rw e (
        k (record w { limiter = l })
          (ap (λ (p : Outcome Unit × Limiter). record w { limiter = p.1 }) (sym e)))
    | inr (x, l, e) ↦ rw e (inl refl)
  ]

  or_write :
      (replay : Option UploadChunkResponse) (w : World St Q) (u : Upload)
      → w.session ≡ w.db
      → find (has_id r.upload_id) w.session.uploads ≡ some u
      → u.owner_id ≡ user.user_id
      → Accepted v u r
      → ChunkEffect w (
          or_run replay
            (limited r.upload_id
              (store_and_record v schedule (write_of u r) (v.sha256 r.body) r.idempotency_key))
            w)
  or_write (some response) w u fresh found owner accepted = inl refl
  or_write none w u fresh found owner accepted =
      limited-effect w _ λ w₁ slot. store_and_record-effect w w₁ u fresh slot found owner accepted

  -- A request on a chunk leaves the committed database as it was, or, for the upload's owner and after
  -- every check, writes exactly the rows that `record_chunk` describes, so there is an uploaded row of
  -- the chunk with the size and checksum of the body and with the key, the etag and the number of
  -- retries that `persist_with_retries` returned; there is no third outcome.
  pub upload_chunk-effect :
      (w : World St Q) → w.session ≡ w.db → ChunkEffect w (upload_chunk v schedule r user w)
  unfolding upload_chunk
  upload_chunk-effect w fresh =
      get_owned_cases (ChunkEffect w) r.upload_id user _ w
        (λ u found owner.
          check_chunk_cases (ChunkEffect w) v u r _ w
            (λ accepted.
              chunk_replay_cases (ChunkEffect w) r.upload_id (pos_part r.chunk_index)
                (v.sha256 r.body) r.idempotency_key _ w
                (λ replay. or_write replay w u fresh found owner accepted) (λ e. inl refl))
            (λ e. inl refl))
        (λ e. inl refl)
