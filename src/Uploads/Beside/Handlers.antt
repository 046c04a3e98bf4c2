-- ===== src/Uploads/Beside/Handlers.antt =====
-- `init_upload`, `missing_chunks` and `download` beside the database.
use distributed_file_service.Prelude.{List, Option, [], none, some, ℕ, ◌∷◌}
use distributed_file_service.Text.{Text}
use distributed_file_service.Exec.{Outcome, ok, raised}
use distributed_file_service.Exec.Keeps.{Keeps, Keeps-bind, Keeps-catch}
use distributed_file_service.Models.{Chunk, Upload}
use distributed_file_service.Limits.{Limiter}
use distributed_file_service.World.{AuthUser, Service}
use distributed_file_service.Range.{parse_range}
use distributed_file_service.Uploads.Init.{
  InitUploadRequest, create_upload, init_replay, init_upload, set_multipart, start_multipart,
}
use distributed_file_service.Uploads.Download.{
  download, missing_chunks, range_response, respond, whole_response,
}
use distributed_file_service.Uploads.Beside.{
  Beside, IsCalm, Keeps-in_session, Keeps-stored, beside_rules,
}

module _ {St Q : Type 0} {I : Limiter → St → Type 0} where
  init_replay-Beside :
      (print : Text) (key : Option Text) (user : AuthUser)
      → Keeps (Beside I) (init_replay {St = St} {Q = Q} print key user)
  unfolding init_replay
  init_replay-Beside print none user = record { run = λ w h. record { holds = h.holds } }
  init_replay-Beside print (some []) user = record { run = λ w h. record { holds = h.holds } }
  init_replay-Beside print (some (c ∷ key)) user = record {
    run = λ w h. record { holds = h.holds };
  }

  start_multipart-Beside :
      (v : Service St Q)
      → IsCalm I v.storage
      → (u : Upload) → Keeps (Beside I) (start_multipart v u)
  unfolding start_multipart
  start_multipart-Beside v calm u =
      Keeps-catch _ _
        (Keeps-bind _ _ (Keeps-stored (v.storage.initialize_upload u.id) (calm.starts u.id))
          (λ id. Keeps-in_session (λ w. set_multipart u.id id w.session)))
        (λ e. record { run = λ w h. record { holds = h.holds } })

  create_upload-Beside :
      (v : Service St Q)
      → IsCalm I v.storage
      → (u : Upload) (print : Text) (key : Option Text)
      → Keeps (Beside I) (create_upload v u print key)
  unfolding create_upload
  create_upload-Beside v calm u print key =
      search (beside_rules, start_multipart-Beside v calm) depth 9

  pub init_upload-Beside :
      (v : Service St Q)
      → IsCalm I v.storage
      → (id : Text) (r : InitUploadRequest) (key : Option Text) (user : AuthUser)
      → Keeps (Beside I) (init_upload v id r key user)
  unfolding init_upload
  init_upload-Beside v calm id r key user =
      search (beside_rules, init_replay-Beside, create_upload-Beside v calm)

  pub missing_chunks-Beside :
      (id : Text) (user : AuthUser) → Keeps (Beside I) (missing_chunks {St = St} {Q = Q} id user)
  unfolding missing_chunks
  missing_chunks-Beside id user = search beside_rules

  range_response-Beside :
      (v : Service St Q) (u : Upload) (cs : List Chunk) (o : Outcome (ℕ × ℕ))
      → Keeps (Beside I) (range_response v u cs o)
  unfolding range_response
  range_response-Beside v u cs (raised e) = record { run = λ w h. record { holds = h.holds } }
  range_response-Beside v u cs (ok (start, end)) = record {
    run = λ w h. record { holds = h.holds };
  }

  respond-Beside :
      (v : Service St Q) (u : Upload) (cs : List Chunk) (range : Option Text)
      → Keeps (Beside I) (respond v u cs range)
  unfolding respond whole_response
  respond-Beside v u cs none = record { run = λ w h. record { holds = h.holds } }
  respond-Beside v u cs (some []) = record { run = λ w h. record { holds = h.holds } }
  respond-Beside v u cs (some (c ∷ range)) =
      range_response-Beside v u cs (parse_range (c ∷ range) u.file_size)

  pub download-Beside :
      (v : Service St Q) (id : Text) (range : Option Text) (user : AuthUser)
      → Keeps (Beside I) (download v id range user)
  unfolding download
  download-Beside v id range user = search (beside_rules, respond-Beside) depth 9
