-- ===== src/Uploads/Sound/Steps.antt =====
-- Every change that a request commits keeps the tables sound.
use distributed_file_service.Prelude.{
  Bool, Option, Option-cases, [], ap, arith, count, distinct, false, find, inl, inr, none, refl,
  some, true, update, ℕ, ◌++◌, ◌<◌, ◌∙◌, ◌∷◌, ◌≡◌, ◌≢◌, ◌⊎◌,
}
use distributed_file_service.Prelude.Int.{pos_part}
use distributed_file_service.Text.{Text, text_eq, text_eq_iff}
use distributed_file_service.Models.{
  Chunk, Db, Upload, completed, constraints_hold, has_id, in_progress, initiated, of_upload,
  uploaded, uploaded_of,
}
use distributed_file_service.Models.Rows.{find-append}
use distributed_file_service.World.{AuthUser, Service, World}
use distributed_file_service.Uploads.Init.{
  InitUploadRequest, init_fingerprint, new_upload, set_multipart,
}
use distributed_file_service.Uploads.Init.Effect.{Created, add_upload, set_if, multipart_of}
use distributed_file_service.Uploads.Persist.{ChunkWrite, Schedule}
use distributed_file_service.Uploads.ChunkUpload.{
  ChunkRequest, add_chunk_request, new_chunk, put_chunk, record_chunk, start_progress, write_of,
}
use distributed_file_service.Uploads.ChunkUpload.Effect.{Written}
use distributed_file_service.Uploads.Complete.{mark_completed}
use distributed_file_service.Uploads.Complete.Effect.{Completed, Remembered}
use distributed_file_service.Uploads.Sound.{Fits, IsSound, same_chunk}
use distributed_file_service.Uploads.Sound.Rows.{All-put_chunk, count-none-Fits, count-put_chunk}
use distributed_file_service.Uploads.Sound.Changes.{
  IsSound-add_chunk_request, IsSound-add_complete_request, IsSound-add_init_request, found_after,
  none_after,
}

pub Remembered-IsSound :
    (id : Text) (key : Option Text) (before after : Db)
    → Remembered id key before after
    → IsSound before
    → IsSound after
Remembered-IsSound id key before after r h =
    rw r.recorded (IsSound-add_complete_request key id r.print r.now before h)

abbrev mark : ℕ → Upload → Upload
mark now u = record u { status = completed; updated_at = now }

-- An upload is marked when all its chunks are there.
pub mark_completed-IsSound :
    (id : Text) (now : ℕ) (db : Db) (u : Upload)
    → find (has_id id) db.uploads ≡ some u
    → count (uploaded_of id) db.chunks ≡ u.total_chunks
    → IsSound db
    → IsSound (mark_completed id now db)
mark_completed-IsSound id now db u found there h = record {
  complete = λ j x e done.
      found_after id j (mark now) db.uploads x (λ y. refl) e
        (λ k y n same. rw (same, ← k) (ground (arith, there, found, n, k)))
        (λ _ n. h.complete j x n done);
  rows = λ j x e.
      found_after id j (mark now) db.uploads x (λ y. refl) e (λ k y n same. rw same (h.rows j y n))
        (λ _ n. h.rows j x n);
  no_orphan = λ j e. h.no_orphan j (none_after id j (mark now) db.uploads (λ y. refl) e);
  initial = λ j x e s.
      found_after id j (mark now) db.uploads x (λ y. refl) e
        (λ k y n same. absurd (ground (arith, s, same))) (λ _ n. h.initial j x n s);
  unique_chunks = h.unique_chunks;
}

pub Completed-IsSound :
    (id : Text) (key : Option Text) (before after : Db)
    → Completed id key before after
    → IsSound before
    → IsSound after
Completed-IsSound id key before after r h = rw r.recorded (
    IsSound-add_complete_request key id r.print r.now (mark_completed id r.now before)
      (mark_completed-IsSound id r.now before r.upload r.found r.all_there h))

pub unique-constraints :
    (db : Db) → constraints_hold db ≡ true → distinct same_chunk db.chunks ≡ true
unfolding constraints_hold
unique-constraints db h = ground arith

pub chunks-add_chunk_request :
    (key : Option Text) (c : ChunkWrite) (print : Text) (now : ℕ) (db : Db)
    → (add_chunk_request key c print now db).chunks ≡ db.chunks
chunks-add_chunk_request none c print now db = refl
chunks-add_chunk_request (some []) c print now db = refl
chunks-add_chunk_request (some (k ∷ key)) c print now db = refl

-- The tables with a chunk put in, the idempotency rows left out.
abbrev with_chunk : Chunk → ℕ → Db → Db
with_chunk c now db = record db {
  chunks = put_chunk c db.chunks;
  uploads = update (has_id c.upload_id) (start_progress now) db.uploads;
}

-- An upload that takes chunks is in progress from then on.
started :
    (u : Upload) (now : ℕ)
    → (u.status ≡ in_progress) ⊎ (u.status ≡ initiated)
    → (start_progress now u).status ≡ in_progress
started u now h = ground arith

with_chunk-IsSound :
    (c : Chunk) (now : ℕ) (db : Db) (u : Upload)
    → find (has_id c.upload_id) db.uploads ≡ some u
    → (u.status ≡ in_progress) ⊎ (u.status ≡ initiated)
    → c.chunk_index < u.total_chunks
    → c.status ≡ uploaded
    → distinct same_chunk (put_chunk c db.chunks) ≡ true
    → IsSound db
    → IsSound (with_chunk c now db)
with_chunk-IsSound c now db u found opened range up unique h =
    let id = c.upload_id in
    let f = start_progress now in
    record {
      complete = λ j x e done.
          found_after id j f db.uploads x (λ y. refl) e
            (λ k y n same. absurd (ground (arith, started u now opened, found, n, k, same, done)))
            (λ d n.
              counted j (uploaded_of j) (λ y q. unfold uploaded_of in rw q refl) d
              ∙ h.complete j x n done);
      rows = λ j x e.
          found_after id j f db.uploads x (λ y. refl) e
            (λ k y n same. rw same (
              All-put_chunk (Fits j y.total_chunks) c db.chunks
                (λ t s. record { fits = λ q. ground (arith, range, up, found, n, k) })
                (h.rows j y n)))
            (λ d n.
              All-put_chunk (Fits j x.total_chunks) c db.chunks
                (λ t s. record { fits = λ q. absurd (d q) }) (h.rows j x n));
      no_orphan = λ j e.
          let n = none_after id j f db.uploads (λ y. refl) e in
          counted j (of_upload j) (λ y q. unfold of_upload in q)
            (λ k. ground (arith, rw k at found, n))
          ∙ h.no_orphan j n;
      initial = λ j x e s.
          found_after id j f db.uploads x (λ y. refl) e
            (λ k y n same. absurd (ground (arith, started u now opened, found, n, k, same, s)))
            (λ d n. counted j (of_upload j) (λ y q. unfold of_upload in q) d ∙ h.initial j x n s);
      unique_chunks = unique;
    }
  where
    counted :
        (j : Text) (p : Chunk → Bool)
        → ((y : Chunk) → text_eq y.upload_id j ≡ false → p y ≡ false)
        → (c.upload_id ≢ j)
        → count p (put_chunk c db.chunks) ≡ count p db.chunks
    counted j p q k =
        count-put_chunk p c j db.chunks q (ground (arith, text_eq_iff c.upload_id j, k))

pub Written-IsSound :
    {St Q : Type 0} (v : Service St Q) (schedule : Schedule) (r : ChunkRequest) (user : AuthUser)
    (w : World St Q) (after : Db)
    → Written v schedule r user w after
    → IsSound w.db
    → IsSound after
unfolding record_chunk
Written-IsSound v schedule r user w after e h =
    let a = e.accepted in
    let c = new_chunk (write_of e.upload r) (v.sha256 r.body) e.stored e.retries e.ended.now in
    let db = with_chunk c e.ended.now w.db in
    let i : pos_part r.chunk_index ≡ a.index = ap pos_part a.index_eq in
    rw e.recorded (
      IsSound-add_chunk_request r.idempotency_key (write_of e.upload r) (v.sha256 r.body)
        e.ended.now db
        (with_chunk-IsSound c e.ended.now w.db e.upload e.found a.open_state (rw i a.in_range) refl
          (rw
            (← chunks-add_chunk_request r.idempotency_key (write_of e.upload r) (v.sha256 r.body)
              e.ended.now db)
            (unique-constraints _ (rw e.recorded at e.consistent)))
          h))

add_upload-IsSound :
    (u : Upload) (db : Db) → u.status ≡ initiated → IsSound db → IsSound (add_upload u db)
unfolding find
add_upload-IsSound u db new h = record {
  complete = λ j x e done.
      from_row j x e (λ n. h.complete j x n done)
        (λ n same. absurd (ground (arith, new, same, done)));
  rows = λ j x e.
      from_row j x e (λ n. h.rows j x n)
        (λ n same. count-none-Fits j x.total_chunks db.chunks (h.no_orphan j n));
  no_orphan = λ j e. h.no_orphan j (ground (arith, find-append (has_id j) db.uploads (u ∷ []), e));
  initial = λ j x e s. from_row j x e (λ n. h.initial j x n s) (λ n same. h.no_orphan j n);
  unique_chunks = h.unique_chunks;
}
  where
    from_row :
        {P : Type 0} (j : Text) (x : Upload)
        → find (has_id j) (db.uploads ++ u ∷ []) ≡ some x
        → (find (has_id j) db.uploads ≡ some x → P)
        → (find (has_id j) db.uploads ≡ none → u ≡ x → P)
        → P
    from_row j x e old fresh = elim (Option-cases (find (has_id j) db.uploads)) [
      | inl n ↦ fresh n (ground (arith, find-append (has_id j) db.uploads (u ∷ []), n, e))
      | inr (y, n) ↦ old (ground (arith, find-append (has_id j) db.uploads (u ∷ []), n, e))
    ]

set_multipart-IsSound :
    (id : Text) (m : Option Text) (db : Db) → IsSound db → IsSound (set_multipart id m db)
set_multipart-IsSound id m db h =
    let f = λ (u : Upload). record u { multipart_upload_id = m } in
    record {
      complete = λ j u e done.
          found_after id j f db.uploads u (λ x. refl) e
            (λ k x n same. rw same (h.complete j x n (rw same at done)))
            (λ _ n. h.complete j u n done);
      rows = λ j u e.
          found_after id j f db.uploads u (λ x. refl) e (λ k x n same. rw same (h.rows j x n))
            (λ _ n. h.rows j u n);
      no_orphan = λ j e. h.no_orphan j (none_after id j f db.uploads (λ x. refl) e);
      initial = λ j u e s.
          found_after id j f db.uploads u (λ x. refl) e
            (λ k x n same. h.initial j x n (rw same at s)) (λ _ n. h.initial j u n s);
      unique_chunks = h.unique_chunks;
    }

set_if-IsSound :
    (m : Option (Option Text)) (id : Text) (db : Db) → IsSound db → IsSound (set_if m id db)
set_if-IsSound none id db h = h
set_if-IsSound (some m) id db h = set_multipart-IsSound id m db h

pub Created-IsSound :
    {St Q : Type 0} (v : Service St Q) (id : Text) (r : InitUploadRequest) (key : Option Text)
    (user : AuthUser) (store : St) (now : ℕ) (before after : Db)
    → Created v id r key user store now before after
    → IsSound before
    → IsSound after
Created-IsSound v id r key user store now before after e h = rw e.recorded (
    IsSound-add_init_request key id (init_fingerprint v r) now _ (
      set_if-IsSound (multipart_of v (new_upload v id r user now) store) id _
        (add_upload-IsSound (new_upload v id r user now) before refl h)))
