-- ===== src/Uploads/Access.antt =====
-- `_get_owned_upload` of app/main.py.
pub mod Cases
use distributed_file_service.Prelude.{Option, find, if◌then◌else◌, none, some}
use distributed_file_service.Text.{Text, text_eq}
use distributed_file_service.Exec.{Error, Exec, http_error, pure, raise}
use distributed_file_service.Models.{Upload, has_id}
use distributed_file_service.World.{AuthUser, World}

abbrev pub upload_not_found : Error
upload_not_found = http_error 404 "upload not found"

abbrev pub forbidden_owner : Error
forbidden_owner = http_error 403 "forbidden for this upload owner"

module _ {St Q : Type 0} where
  unfoldable pub check_owner : AuthUser → Option Upload → Exec (World St Q) Upload
  check_owner user none = raise upload_not_found
  check_owner user (some upload) =
      if text_eq upload.owner_id user.user_id then pure upload else raise forbidden_owner

  unfoldable pub get_owned_upload : Text → AuthUser → Exec (World St Q) Upload
  unfolding check_owner
  get_owned_upload upload_id user w = check_owner user (find (has_id upload_id) w.session.uploads) w
