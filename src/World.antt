-- ===== src/World.antt =====
-- The state that the handlers of app/main.py share, one request's view of the database, and what
-- the handlers take as given: settings, the chunk store, the queue, and SHA-256.
use Prim.Native.String.{String}
use distributed_file_service.Prelude.{
  Bool, List, Option, [], if◌then◌else◌, none, some, ℕ, ◌++◌, ◌∷◌,
}
use distributed_file_service.Text.{Bytes, Text}
use distributed_file_service.Exec.{Error, Exec, ok, pure, raised, unhandled, zoom}
use distributed_file_service.Config.{Settings}
use distributed_file_service.Models.{Db, UploadStatus, constraints_hold}
use distributed_file_service.Json.{Scalar, dumps}
use distributed_file_service.Limits.{Limiter}
use distributed_file_service.Worker.{BackpressureExecutor}
use distributed_file_service.Storage.{ChunkStorage}
use distributed_file_service.DurableQueue.{DurableQueue, Results}

pub record AuthUser : Type 0 where
  pub user_id : Text
  pub api_key : Text
  pub is_admin : Bool

pub record Metrics : Type 0 where
  pub retries_total : ℕ
  pub chunk_upload_failures_total : ℕ
  pub chunks_uploaded_total : ℕ
  pub bytes_uploaded_total : ℕ

-- An audit line. The ids of the request and the trace are left out.
pub record AuditEvent : Type 0 where
  pub action : String
  pub upload_id : Text
  pub user_id : Text
  pub status : UploadStatus
  pub flag : Bool

pub record World (St Q : Type 0) : Type 0 where
  pub db : Db
  pub session : Db
  pub store : St
  pub queue : Q
  pub results : Results
  pub limiter : Limiter
  pub executor : BackpressureExecutor
  pub now : ℕ
  pub metrics : Metrics
  pub audit : List AuditEvent

pub record Service (St Q : Type 0) : Type 0 where
  pub config : Settings
  pub storage : ChunkStorage St
  pub durable_queue : DurableQueue Q
  pub sha256 : Bytes → Text

-- `_fingerprint`.
unfoldable pub fingerprint : {St Q : Type 0} → Service St Q → List (Text × Scalar) → Text
fingerprint v obj = v.sha256 (dumps obj)

abbrev pub integrity_error : Error
integrity_error = unhandled "IntegrityError"

module _ {St Q : Type 0} where
  -- `get_db`: each request has a new session, closed at its end.
  abbrev pub open_session : World St Q → World St Q
  open_session w = record w { session = w.db }

  unfoldable pub flush : Exec (World St Q) Unit
  flush w = if constraints_hold w.session then (ok tt, w) else (raised integrity_error, w)

  unfoldable pub commit : Exec (World St Q) Unit
  commit w =
      if constraints_hold w.session
      then (ok tt, record w { db = w.session })
      else (raised integrity_error, w)

  abbrev pub rollback : World St Q → World St Q
  rollback w = record w { session = w.db }

  abbrev pub in_session : (Db → Db) → World St Q → World St Q
  in_session f w = record w { session = f w.session }

  abbrev pub in_store : {A : Type 0} → Exec St A → Exec (World St Q) A
  in_store = zoom (λ w. w.store) (λ s w. record w { store = s })

  abbrev pub audit_event : AuditEvent → World St Q → World St Q
  audit_event e w = record w { audit = w.audit ++ e ∷ [] }

-- `raise exc if found is None`.
abbrev pub or_raise : {S A : Type 0} → Option A → Error → Exec S A
or_raise none e s = (raised e, s)
or_raise (some a) e s = (ok a, s)

-- A stored answer, or else the work.
abbrev pub or_run : {S A : Type 0} → Option A → Exec S A → Exec S A
or_run none work = work
or_run (some response) work = pure response
