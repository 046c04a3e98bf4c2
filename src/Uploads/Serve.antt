-- ===== src/Uploads/Serve.antt =====
-- Requests one after another on the shared state, in any order: each has a session of its own, and
-- the clock stands at the time that comes with it.
pub mod Invariant
pub mod Lifecycle
use distributed_file_service.Prelude.{List, Option, [], ℕ, ◌∷◌}
use distributed_file_service.Text.{Text}
use distributed_file_service.World.{AuthUser, Service, World, open_session}
use distributed_file_service.Uploads.Init.{InitUploadRequest, init_upload}
use distributed_file_service.Uploads.Persist.{Schedule}
use distributed_file_service.Uploads.ChunkUpload.{ChunkRequest, upload_chunk}
use distributed_file_service.Uploads.Complete.{complete_upload}
use distributed_file_service.Uploads.Download.{download, missing_chunks}

-- The requests on uploads; the id of a new upload, a new `uuid4`, comes with its request.
pub data Request : Type 0 where
  init : Text → InitUploadRequest → Option Text → Request
  chunk : Schedule → ChunkRequest → Request
  complete : Text → Option Text → Request
  missing : Text → Request
  fetch : Text → Option Text → Request

pub record Call : Type 0 where
  pub time : ℕ
  pub user : AuthUser
  pub request : Request

module _ {St Q : Type 0} where
  unfoldable pub handle : Service St Q → AuthUser → Request → World St Q → World St Q
  handle v user (init id payload key) w = (init_upload v id payload key user w).1
  handle v user (chunk schedule r) w = (upload_chunk v schedule r user w).1
  handle v user (complete id key) w = (complete_upload v id key user w).1
  handle v user (missing id) w = (missing_chunks id user w).1
  handle v user (fetch id range) w = (download v id range user w).1

  unfoldable pub serve : Service St Q → Call → World St Q → World St Q
  serve v c w = handle v c.user c.request (open_session (record w { now = c.time }))

  unfoldable pub serve_all : Service St Q → List Call → World St Q → World St Q
  serve_all v [] w = w
  serve_all v (c ∷ cs) w = serve_all v cs (serve v c w)
