-- ===== src/Uploads/Beside.antt =====
-- The requests that store no chunk, beside the database: what they leave alone of the limiter and of
-- the store.
pub mod Handlers
pub mod Completing
use distributed_file_service.Prelude.{Bool-cases, List, Option, find, inl, inr, none, some}
use distributed_file_service.Text.{Text, text_eq}
use distributed_file_service.Exec.{Exec, modify}
use distributed_file_service.Exec.Keeps.{Keeps, Keeps-pure, keeps_rules}
use distributed_file_service.Models.{Db, Upload, constraints_hold, has_id}
use distributed_file_service.Limits.{Limiter}
use distributed_file_service.Storage.{ChunkStorage, Part}
use distributed_file_service.World.{
  AuditEvent, AuthUser, World, audit_event, commit, flush, in_store, or_run,
}
use distributed_file_service.Uploads.Access.{check_owner, get_owned_upload}

-- A property of the limiter and the store.
pub record Beside {St Q : Type 0} (I : Limiter → St → Type 0) (w : World St Q) : Type 0 where
  pub holds : I w.limiter w.store

-- The store keeps the property when an upload starts, ends or is read.
pub record IsCalm {St : Type 0} (I : Limiter → St → Type 0) (storage : ChunkStorage St)
    : Type 0 where
  pub starts : (id : Text) (l : Limiter) (s : St) → I l s → I l (storage.initialize_upload id s).1
  pub reads : (key : Text) (l : Limiter) (s : St) → I l s → I l (storage.read_chunk key s).1
  pub ends :
      (id : Text) (multipart : Option Text) (parts : List Part) (l : Limiter) (s : St)
      → I l s
      → I l (storage.complete_upload id multipart parts s).1

module _ {St Q : Type 0} {I : Limiter → St → Type 0} where
  pub Keeps-commit : Keeps (Beside {St = St} {Q = Q} I) commit
  unfolding commit
  Keeps-commit = record {
    run = λ w h. elim (Bool-cases (constraints_hold w.session)) [
      | inl c ↦ rw c (record { holds = h.holds })
      | inr c ↦ rw c (record { holds = h.holds })
    ];
  }

  pub Keeps-flush : Keeps (Beside {St = St} {Q = Q} I) flush
  unfolding flush
  Keeps-flush = record {
    run = λ w h. elim (Bool-cases (constraints_hold w.session)) [
      | inl c ↦ rw c (record { holds = h.holds })
      | inr c ↦ rw c (record { holds = h.holds })
    ];
  }

  pub Keeps-in_session :
      (f : World St Q → Db) → Keeps (Beside I) (modify (λ w. record w { session = f w }))
  Keeps-in_session f = record { run = λ w h. record { holds = h.holds } }

  pub Keeps-audit : (e : AuditEvent) → Keeps (Beside {St = St} {Q = Q} I) (modify (audit_event e))
  Keeps-audit e = record { run = λ w h. record { holds = h.holds } }

  pub Keeps-stored :
      {A : Type 0} (m : Exec St A)
      → ((l : Limiter) (s : St) → I l s → I l (m s).1)
      → Keeps (Beside {Q = Q} I) (in_store m)
  Keeps-stored m k = record { run = λ w h. record { holds = k w.limiter w.store h.holds } }

  pub Keeps-owned :
      (id : Text) (user : AuthUser) → Keeps (Beside {St = St} {Q = Q} I) (get_owned_upload id user)
  unfolding get_owned_upload check_owner
  Keeps-owned id user = record { run = λ w h. go w h (find (has_id id) w.session.uploads) }
    where
      go : (w : World St Q) → Beside I w → (o : Option Upload) → Beside I (check_owner user o w).1
      go w h none = record { holds = h.holds }
      go w h (some u) = elim (Bool-cases (text_eq u.owner_id user.user_id)) [
        | inl e ↦ rw e (record { holds = h.holds })
        | inr e ↦ rw e (record { holds = h.holds })
      ]

  pub Keeps-or_run :
      {A : Type 0} (o : Option A) (m : Exec (World St Q) A)
      → Keeps (Beside I) m
      → Keeps (Beside I) (or_run o m)
  Keeps-or_run none m k = k
  Keeps-or_run (some a) m k = Keeps-pure a

  pub ruleset beside_rules = (
    keeps_rules, Keeps-commit, Keeps-flush, Keeps-in_session, Keeps-audit, Keeps-owned,
    Keeps-or_run,
  )
