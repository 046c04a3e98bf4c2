-- ===== src/Uploads/Interleaved/Slots/Handlers.antt =====
-- The handlers that do not hold a slot leave the limiter alone.
use distributed_file_service.Exec.{Exec}
use distributed_file_service.Prelude.{Option, ◌≡◌}
use distributed_file_service.Text.{Text}
use distributed_file_service.Exec.Keeps.{Keeps}
use distributed_file_service.Models.{Upload}
use distributed_file_service.Limits
use distributed_file_service.Storage.{ChunkStorage}
use distributed_file_service.World.{AuthUser, Service, World}
use distributed_file_service.Uploads.Init.{InitUploadRequest, init_upload}
use distributed_file_service.Uploads.Complete.{complete_again, complete_upload, mark_upload}
use distributed_file_service.Uploads.Download.{download, missing_chunks}
use distributed_file_service.Uploads.Beside.{Beside, IsCalm}
use distributed_file_service.Uploads.Beside.Handlers.{
  download-Beside, init_upload-Beside, missing_chunks-Beside,
}
use distributed_file_service.Uploads.Beside.Completing.{
  complete_again-Beside, complete_upload-Beside, mark_upload-Beside,
}

abbrev pub LimiterIs : {St Q : Type 0} → Limits.Limiter → World St Q → Type 0
LimiterIs l w = w.limiter ≡ l

module _ {St : Type 0} {l : Limits.Limiter} where
  any_store : (storage : ChunkStorage St) → IsCalm (λ m s. m ≡ l) storage
  any_store storage = record {
    starts = λ id m s h. h;
    reads = λ key m s h. h;
    ends = λ id multipart parts m s h. h;
  }

module _ {St Q : Type 0} {l : Limits.Limiter} where
  of_Beside :
      {A : Type 0} (m : Exec (World St Q) A)
      → Keeps (Beside (λ l' s. l' ≡ l)) m
      → Keeps (LimiterIs l) m
  of_Beside m k = record { run = λ w h. (k.run w (record { holds = h })).holds }

  pub init_upload-limiter :
      (v : Service St Q) (id : Text) (r : InitUploadRequest) (key : Option Text) (user : AuthUser)
      → Keeps (LimiterIs l) (init_upload v id r key user)
  init_upload-limiter v id r key user =
      of_Beside _ (init_upload-Beside v (any_store v.storage) id r key user)

  pub missing_chunks-limiter :
      (id : Text) (user : AuthUser) → Keeps (LimiterIs l) (missing_chunks {St = St} {Q = Q} id user)
  missing_chunks-limiter id user = of_Beside _ (missing_chunks-Beside id user)

  pub download-limiter :
      (v : Service St Q) (id : Text) (range : Option Text) (user : AuthUser)
      → Keeps (LimiterIs l) (download v id range user)
  download-limiter v id range user = of_Beside _ (download-Beside v id range user)

  pub mark_upload-limiter :
      (u : Upload) (print : Text) (key : Option Text)
      → Keeps (LimiterIs {St = St} {Q = Q} l) (mark_upload u print key)
  mark_upload-limiter u print key = of_Beside _ (mark_upload-Beside u print key)

  pub complete_again-limiter :
      (u : Upload) (print : Text) (key : Option Text)
      → Keeps (LimiterIs {St = St} {Q = Q} l) (complete_again u print key)
  complete_again-limiter u print key = of_Beside _ (complete_again-Beside u print key)

  pub complete_upload-limiter :
      (v : Service St Q) (id : Text) (key : Option Text) (user : AuthUser)
      → Keeps (LimiterIs l) (complete_upload v id key user)
  complete_upload-limiter v id key user =
      of_Beside _ (complete_upload-Beside v (any_store v.storage) id key user)
