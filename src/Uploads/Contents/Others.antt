-- ===== src/Uploads/Contents/Others.antt =====
-- The requests that store no chunk leave the rows of chunks and the files alone.
use distributed_file_service.Prelude.{
  Option, Option-cases, [], ap, inl, inr, none, refl, some, ℕ, ◌∙◌, ◌∷◌, ◌≡◌,
}
use distributed_file_service.Text.{Text}
use distributed_file_service.Dict.{lookup}
use distributed_file_service.Exec.{Exec}
use distributed_file_service.Exec.Keeps.{Keeps}
use distributed_file_service.Models.{Db, Upload}
use distributed_file_service.Limits.{Limiter}
use distributed_file_service.Storage.Local.{Files, local_storage, read_chunk}
use distributed_file_service.World.{AuthUser, Service, World}
use distributed_file_service.Uploads.Init.{
  InitUploadRequest, add_init_request, init_upload, new_upload,
}
use distributed_file_service.Uploads.Init.Effect.{
  add_upload, init_upload-effect, set_if, multipart_of,
}
use distributed_file_service.Uploads.Complete.{add_complete_request, complete_upload}
use distributed_file_service.Uploads.Complete.Effect.{complete_upload-effect}
use distributed_file_service.Uploads.Download.{download, missing_chunks}
use distributed_file_service.Uploads.Download.Frame.{download-frame, missing_chunks-frame}
use distributed_file_service.Uploads.Beside.{Beside, IsCalm}
use distributed_file_service.Uploads.Beside.Handlers.{
  download-Beside, init_upload-Beside, missing_chunks-Beside,
}
use distributed_file_service.Uploads.Beside.Completing.{complete_upload-Beside}

abbrev FilesAre : Files → Limiter → Files → Type 0
FilesAre files l s = s ≡ files

read_chunk-files : (key : Text) (files : Files) → (read_chunk key files).1 ≡ files
unfolding read_chunk
read_chunk-files key files = elim (Option-cases (lookup key files)) [
  | inl e ↦ rw (read_chunk, e) refl
  | inr (b, e) ↦ rw (read_chunk, e) refl
]

local_storage-IsCalm : (files : Files) → IsCalm (FilesAre files) local_storage
local_storage-IsCalm files = record {
  starts = λ id l s h. h;
  reads = λ key l s h. read_chunk-files key s ∙ h;
  ends = λ id multipart parts l s h. h;
}

-- The files and the rows of chunks, before and after.
pub record SameChunks {Q : Type 0} (v w : World Files Q) : Type 0 where
  pub same_files : w.store ≡ v.store
  pub same_rows : w.db.chunks ≡ v.db.chunks

module _ {Q : Type 0} (v : Service Files Q) (local : v.storage ≡ local_storage) where
  calm : (files : Files) → IsCalm (FilesAre files) v.storage
  calm files = rw local (local_storage-IsCalm files)

  files_of :
      {A : Type 0} (m : Exec (World Files Q) A) (w : World Files Q)
      → Keeps (Beside (FilesAre w.store)) m
      → (m w).1.store ≡ w.store
  files_of m w k = (k.run w (record { holds = refl })).holds

  init_rows :
      (key : Option Text) (id print : Text) (now : ℕ) (multipart : Option (Option Text))
      (u : Upload) (db : Db)
      → (add_init_request key id print now (set_if multipart id (add_upload u db))).chunks
        ≡ db.chunks
  init_rows none id print now none u db = refl
  init_rows none id print now (some m) u db = refl
  init_rows (some []) id print now none u db = refl
  init_rows (some []) id print now (some m) u db = refl
  init_rows (some (c ∷ key)) id print now none u db = refl
  init_rows (some (c ∷ key)) id print now (some m) u db = refl

  complete_rows :
      (key : Option Text) (id print : Text) (now : ℕ) (db : Db)
      → (add_complete_request key id print now db).chunks ≡ db.chunks
  complete_rows none id print now db = refl
  complete_rows (some []) id print now db = refl
  complete_rows (some (c ∷ key)) id print now db = refl

  pub init_upload-SameChunks :
      (id : Text) (r : InitUploadRequest) (key : Option Text) (user : AuthUser) (w : World Files Q)
      → w.session ≡ w.db
      → SameChunks w (init_upload v id r key user w).1
  init_upload-SameChunks id r key user w fresh = record {
    same_files = files_of _ w (init_upload-Beside v (calm w.store) id r key user);
    same_rows = elim (init_upload-effect v id r key user w fresh) [
      | inl e ↦ ap (λ (d : Db). d.chunks) e
      | inr c ↦
          rw c.recorded
            (init_rows key id _ _ (multipart_of v (new_upload v id r user w.now) w.store) _ w.db)
    ];
  }

  pub complete_upload-SameChunks :
      (id : Text) (key : Option Text) (user : AuthUser) (w : World Files Q)
      → w.session ≡ w.db
      → SameChunks w (complete_upload v id key user w).1
  complete_upload-SameChunks id key user w fresh = record {
    same_files = files_of _ w (complete_upload-Beside v (calm w.store) id key user);
    same_rows = elim (complete_upload-effect v id key w user fresh) [
      | inl e ↦ ap (λ (d : Db). d.chunks) e
      | inr (inl c) ↦ rw c.recorded (complete_rows key id _ _ w.db)
      | inr (inr c) ↦ rw c.recorded (complete_rows key id _ _ _)
    ];
  }

  pub missing_chunks-SameChunks :
      (id : Text) (user : AuthUser) (w : World Files Q) → SameChunks w (missing_chunks id user w).1
  missing_chunks-SameChunks id user w = record {
    same_files = files_of _ w (missing_chunks-Beside id user);
    same_rows = ap (λ (d : Db). d.chunks) (missing_chunks-frame id user w);
  }

  pub download-SameChunks :
      (id : Text) (range : Option Text) (user : AuthUser) (w : World Files Q)
      → SameChunks w (download v id range user w).1
  download-SameChunks id range user w = record {
    same_files = files_of _ w (download-Beside v id range user);
    same_rows = ap (λ (d : Db). d.chunks) (download-frame v id range user w);
  }
