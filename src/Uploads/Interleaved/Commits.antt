-- ===== src/Uploads/Interleaved/Commits.antt =====
-- What one commit of an interleaved request does to the tables.
pub mod Rows
use distributed_file_service.Prelude.{
  none, Option, All, Bool, Bool-cases, List, [], arith, count, distinct, false, find, inl, inr,
  refl, some, sym, true, update, ℕ, ◌<◌, ◌∙◌, ◌∷◌, ◌≡◌, ◌≢◌, ◌≤◌,
}
use distributed_file_service.Text.{Text, text_eq, text_eq_iff}
use distributed_file_service.Models.Columns.{set_columns, set_columns-uploaded}
use distributed_file_service.Models.{
  Chunk, Db, Upload, completed, has_id, is_chunk, is_initiated, is_uploaded, of_upload, uploaded,
  uploaded_of,
}
use distributed_file_service.Models.Rows.{All-append, count-append, find-update_upload}
use distributed_file_service.Uploads.Download.Missing.{count-le-total}
use distributed_file_service.Uploads.Sound.{Fits, IsSound, same_chunk}
use distributed_file_service.Uploads.Sound.Rows.{count-update_other, is_chunk_other}
use distributed_file_service.Uploads.Sound.Changes.{found_after, none_after}
use distributed_file_service.Uploads.Interleaved.Commits.Rows.{
  All-write, count-write_more, count-write_other, set_columns-Fits,
}
use distributed_file_service.Uploads.Interleaved.Chunks.{start_loaded, write_chunk_row}

abbrev pub Found : Text → Upload → Db → Type 0
Found id u db = find (has_id id) db.uploads ≡ some u

-- What no commit takes back: uploads stay, with their number of chunks, none becomes INITIATED
-- again, and no upload has fewer uploaded chunks.
pub record Grows (a b : Db) : Type 0 where
  pub kept :
      (id : Text) (u : Upload)
      → Found id u a
      → (t : Upload) × Found id t b
        × (t.total_chunks ≡ u.total_chunks)
        × (is_initiated t.status ≡ true → is_initiated u.status ≡ true)
  pub more : (id : Text) → count (uploaded_of id) a.chunks ≤ count (uploaded_of id) b.chunks

pub Grows-same : (a b : Db) → b.uploads ≡ a.uploads → b.chunks ≡ a.chunks → Grows a b
Grows-same a b u c = record {
  kept = λ id t e. (t, rw u e, refl, λ h. h);
  more = λ id. rw c (omega arith);
}

module _ (i : Text) (f : Upload → Upload) (same_id : (u : Upload) → (f u).id ≡ u.id) where
  -- A change of the rows of one id.
  pub update-kept :
      (us : List Upload)
      → ((u : Upload)
          → ((f u).total_chunks ≡ u.total_chunks)
            × (is_initiated (f u).status ≡ true → is_initiated u.status ≡ true))
      → (id : Text) (u : Upload) → find (has_id id) us ≡ some u
      → (t : Upload) × (find (has_id id) (update (has_id i) f us) ≡ some t)
        × (t.total_chunks ≡ u.total_chunks)
        × (is_initiated t.status ≡ true → is_initiated u.status ≡ true)
  update-kept us ok_f id u e = elim (Bool-cases (text_eq i id)) [
    | inl k ↦
        (f u, ground (arith, find-update_upload i id f us same_id, k, e), (ok_f u).0, (ok_f u).1)
    | inr k ↦ (u, ground (arith, find-update_upload i id f us same_id, k, e), refl, λ h. h)
  ]

-- The tables after a commit, the idempotency rows left out.
abbrev pub with_row : Upload → Option Chunk → Chunk → ℕ → Db → Db
with_row u existing c now db = record db {
  chunks = write_chunk_row existing c db.chunks;
  uploads = update (has_id c.upload_id) (start_loaded u now) db.uploads;
}

pub with_row-Grows :
    (u : Upload) (existing : Option Chunk) (c : Chunk) (now : ℕ) (db : Db)
    → is_uploaded c.status ≡ true
    → Grows db (with_row u existing c now db)
with_row-Grows u existing c now db up = record {
  kept =
      update-kept c.upload_id (start_loaded u now) (λ x. refl) db.uploads
        (λ x. (refl, λ h. ground (arith, h)));
  more = λ id. count-write_more id existing c db.chunks up;
}

-- The commit of a request that loaded `u`, when the row has become `t`.
pub with_row-IsSound :
    (u t : Upload) (existing : Option Chunk) (c : Chunk) (now : ℕ) (db : Db)
    → Found c.upload_id t db
    → t.total_chunks ≡ u.total_chunks
    → (is_initiated t.status ≡ true → is_initiated u.status ≡ true)
    → c.chunk_index < u.total_chunks
    → c.status ≡ uploaded
    → distinct same_chunk (write_chunk_row existing c db.chunks) ≡ true
    → IsSound db
    → IsSound (with_row u existing c now db)
with_row-IsSound u t existing c now db found number first range up unique h =
    let id = c.upload_id in
    let f = start_loaded u now in
    record {
      complete = λ j x e done.
          found_after id j f db.uploads x (λ y. refl) e
            (λ k y n same.
              let was : y.status ≡ completed = ground (arith, same, done) in
              rw same (full j y n was))
            (λ d n.
              counted j (uploaded_of j) (λ y q. unfold uploaded_of in rw q refl) d
              ∙ h.complete j x n done);
      rows = all_rows;
      no_orphan = λ j e.
          let n = none_after id j f db.uploads (λ y. refl) e in
          counted j (of_upload j) (λ y q. unfold of_upload in q)
            (λ k. ground (arith, rw k at found, n))
          ∙ h.no_orphan j n;
      initial = λ j x e s.
          found_after id j f db.uploads x (λ y. refl) e
            (λ k y n same.
              let was : y ≡ t = ground (arith, rw k at found, n) in
              absurd (ground (arith, rw was at same, s, first)))
            (λ d n. counted j (of_upload j) (λ y q. unfold of_upload in q) d ∙ h.initial j x n s);
      unique_chunks = unique;
    }
  where
    counted :
        (j : Text) (p : Chunk → Bool)
        → ((y : Chunk) → text_eq y.upload_id j ≡ false → p y ≡ false)
        → (c.upload_id ≢ j)
        → count p (write_chunk_row existing c db.chunks) ≡ count p db.chunks
    counted j p q k =
        count-write_other p existing c j db.chunks q (ground (arith, text_eq_iff c.upload_id j, k))

    new_fits : (j : Text) (y : Upload) → Found j y db → Fits j y.total_chunks c
    new_fits j y n = record {
      fits = λ q. ground (arith, range, up, found, rw (sym q) at n, number);
    }

    rows_of :
        (j : Text) (y : Upload)
        → Found j y db
        → All (Fits j y.total_chunks) (write_chunk_row existing c db.chunks)
    rows_of j y n =
        All-write (Fits j y.total_chunks) existing c db.chunks
          (λ l x own old. set_columns-Fits c l x j y.total_chunks own old (new_fits j y n))
          (new_fits j y n) (h.rows j y n)

    all_rows :
        (j : Text) (x : Upload)
        → Found j x (with_row u existing c now db)
        → All (Fits j x.total_chunks) (write_chunk_row existing c db.chunks)
    all_rows j x e =
        found_after c.upload_id j (start_loaded u now) db.uploads x (λ y. refl) e
          (λ k y n same. rw same (rows_of j y n)) (λ d n. rows_of j x n)

    full :
        (j : Text) (y : Upload)
        → Found j y db
        → y.status ≡ completed
        → count (uploaded_of j) (write_chunk_row existing c db.chunks) ≡ y.total_chunks
    full j y n done = omega (
      arith,
      h.complete j y n done,
      count-write_more j existing c db.chunks (rw up refl),
      count-le-total j y.total_chunks (write_chunk_row existing c db.chunks) (rows_of j y n) unique,
    )
