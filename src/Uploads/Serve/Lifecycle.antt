-- ===== src/Uploads/Serve/Lifecycle.antt =====
-- What becomes of an upload under later requests.
use distributed_file_service.Prelude.{
  Bool, Bool-cases, false, true, List, Option, [], arith, find, inl, inr, none, refl, some, update,
  ℕ, ◌∷◌, ◌≡◌, ◌≤◌,
}
use distributed_file_service.Text.{Text, text_eq, text_eq_iff}
use distributed_file_service.Models.{
  Db, Upload, UploadStatus, aborted, completed, failed, has_id, in_progress, initiated,
}
use distributed_file_service.Models.Rows.{find-append, find-update_upload}
use distributed_file_service.World.{AuthUser, Service, World}
use distributed_file_service.Uploads.Init.{
  InitUploadRequest, add_init_request, init_fingerprint, new_upload,
}
use distributed_file_service.Uploads.Init.Effect.{
  Created, init_upload-effect, set_if, add_upload, multipart_of,
}
use distributed_file_service.Uploads.Persist.{ChunkWrite, Schedule}
use distributed_file_service.Uploads.ChunkUpload.{
  ChunkRequest, add_chunk_request, record_chunk, start_progress, write_of,
}
use distributed_file_service.Uploads.ChunkUpload.Effect.{Written, upload_chunk-effect}
use distributed_file_service.Uploads.Complete.{add_complete_request}
use distributed_file_service.Uploads.Complete.Effect.{Completed, complete_upload-effect}
use distributed_file_service.Uploads.Download.Frame.{download-frame, missing_chunks-frame}
use distributed_file_service.Uploads.Serve.{Request, chunk, complete, fetch, handle, init, missing}

-- The order in which an upload goes through its states.
abbrev pub stage : UploadStatus → ℕ
stage initiated = 0
stage in_progress = 1
stage completed = 2
stage failed = 3
stage aborted = 3

-- Neither failed nor aborted.
abbrev pub is_alive : UploadStatus → Bool
is_alive failed = false
is_alive aborted = false
is_alive _ = true

-- The announced data stays, and the state does not go back, nor fail.
pub record Advances (u t : Upload) : Type 0 where
  pub id : t.id ≡ u.id
  pub owner : t.owner_id ≡ u.owner_id
  pub name : t.file_name ≡ u.file_name
  pub size : t.file_size ≡ u.file_size
  pub chunk_size : t.chunk_size ≡ u.chunk_size
  pub chunks : t.total_chunks ≡ u.total_chunks
  pub checksum : t.file_checksum_sha256 ≡ u.file_checksum_sha256
  pub forward : stage u.status ≤ stage t.status
  pub created : t.created_at ≡ u.created_at
  pub alive : is_alive u.status ≡ true → is_alive t.status ≡ true

pub Advances-refl : (u : Upload) → Advances u u
Advances-refl u = ground arith

pub Advances-trans : {a b c : Upload} → Advances a b → Advances b c → Advances a c
Advances-trans p q = ground (arith, p, q)

-- The upload of an id, later.
abbrev pub Kept : Text → Upload → Db → Type 0
Kept id u db = (t : Upload) × (find (has_id id) db.uploads ≡ some t) × Advances u t

update-Kept :
    (i id : Text) (f : Upload → Upload) (u : Upload) (us : List Upload)
    → ((x : Upload) → (f x).id ≡ x.id)
    → (i ≡ id → Advances u (f u))
    → find (has_id id) us ≡ some u
    → (t : Upload) × (find (has_id id) (update (has_id i) f us) ≡ some t) × Advances u t
update-Kept i id f u us h a e = elim (Bool-cases (text_eq i id)) [
  | inl k ↦ (f u, ground (arith, find-update_upload i id f us h, k, e), a ((text_eq_iff i id).0 k))
  | inr k ↦ (u, ground (arith, find-update_upload i id f us h, k, e), Advances-refl u)
]

pub uploads-add_chunk_request :
    (key : Option Text) (c : ChunkWrite) (print : Text) (now : ℕ) (db : Db)
    → (add_chunk_request key c print now db).uploads ≡ db.uploads
uploads-add_chunk_request none c print now db = refl
uploads-add_chunk_request (some []) c print now db = refl
uploads-add_chunk_request (some (k ∷ key)) c print now db = refl

pub uploads-add_complete_request :
    (key : Option Text) (id print : Text) (now : ℕ) (db : Db)
    → (add_complete_request key id print now db).uploads ≡ db.uploads
uploads-add_complete_request none id print now db = refl
uploads-add_complete_request (some []) id print now db = refl
uploads-add_complete_request (some (c ∷ key)) id print now db = refl

uploads-add_init_request :
    (key : Option Text) (id print : Text) (now : ℕ) (db : Db)
    → (add_init_request key id print now db).uploads ≡ db.uploads
uploads-add_init_request none id print now db = refl
uploads-add_init_request (some []) id print now db = refl
uploads-add_init_request (some (c ∷ key)) id print now db = refl

set_if-Kept :
    (m : Option (Option Text)) (i id : Text) (u : Upload) (db : Db)
    → find (has_id id) db.uploads ≡ some u
    → Kept id u (set_if m i db)
set_if-Kept none i id u db e = (u, e, Advances-refl u)
set_if-Kept (some m) i id u db e =
    update-Kept i id (λ x. record x { multipart_upload_id = m }) u db.uploads (λ x. refl)
      (λ _. ground arith) e

Created-Kept :
    {St Q : Type 0} (v : Service St Q) (i : Text) (r : InitUploadRequest) (key : Option Text)
    (user : AuthUser) (store : St) (now : ℕ) (before after : Db) (id : Text) (u : Upload)
    → Created v i r key user store now before after
    → find (has_id id) before.uploads ≡ some u
    → Kept id u after
Created-Kept v i r key user store now before after id u c e =
    rw (c.recorded, uploads-add_init_request key i (init_fingerprint v r) now _)
      (set_if-Kept (multipart_of v (new_upload v i r user now) store) i id u
        (add_upload (new_upload v i r user now) before)
        (ground
          (arith, find-append (has_id id) before.uploads (new_upload v i r user now ∷ []), e)))

Written-Kept :
    {St Q : Type 0} (v : Service St Q) (schedule : Schedule) (r : ChunkRequest) (user : AuthUser)
    (w : World St Q) (after : Db) (id : Text) (u : Upload)
    → Written v schedule r user w after
    → find (has_id id) w.db.uploads ≡ some u
    → Kept id u after
unfolding record_chunk
Written-Kept v schedule r user w after id u c e =
    rw
      (
        c.recorded,
        uploads-add_chunk_request r.idempotency_key (write_of c.upload r) (v.sha256 r.body)
            c.ended.now _,
      )
      (update-Kept r.upload_id id (start_progress c.ended.now) u w.db.uploads (λ x. refl)
        (λ _. ground arith) e)

Completed-Kept :
    (i : Text) (key : Option Text) (before after : Db) (id : Text) (u : Upload)
    → Completed i key before after
    → find (has_id id) before.uploads ≡ some u
    → Kept id u after
Completed-Kept i key before after id u c e =
    rw (c.recorded, uploads-add_complete_request key i c.print c.now _)
      (update-Kept i id (λ x. record x { status = completed; updated_at = c.now }) u before.uploads
        (λ x. refl) (λ k. ground (arith, c.found, c.was_in_progress, k, e)) e)

module _ {St Q : Type 0} (v : Service St Q) where
  pub handle-Kept :
      (user : AuthUser) (q : Request) (w : World St Q) (id : Text) (u : Upload)
      → w.session ≡ w.db
      → find (has_id id) w.db.uploads ≡ some u
      → Kept id u (handle v user q w).db
  unfolding handle
  handle-Kept user (init i payload key) w id u fresh e =
      elim (init_upload-effect v i payload key user w fresh) [
        | inl same ↦ rw same (u, e, Advances-refl u)
        | inr c ↦ Created-Kept v i payload key user w.store w.now w.db _ id u c e
      ]
  handle-Kept user (chunk schedule r) w id u fresh e =
      elim (upload_chunk-effect v schedule r user w fresh) [
        | inl same ↦ rw same (u, e, Advances-refl u)
        | inr c ↦ Written-Kept v schedule r user w _ id u c e
      ]
  handle-Kept user (complete i key) w id u fresh e =
      elim (complete_upload-effect v i key w user fresh) [
        | inl same ↦ rw same (u, e, Advances-refl u)
        | inr (inl c) ↦
            rw (c.recorded, uploads-add_complete_request key i c.print c.now _)
              (u, e, Advances-refl u)
        | inr (inr c) ↦ Completed-Kept i key w.db _ id u c e
      ]
  handle-Kept user (missing i) w id u fresh e =
      rw (missing_chunks-frame i user w) (u, e, Advances-refl u)
  handle-Kept user (fetch i range) w id u fresh e =
      rw (download-frame v i range user w) (u, e, Advances-refl u)
