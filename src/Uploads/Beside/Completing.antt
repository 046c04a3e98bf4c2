-- ===== src/Uploads/Beside/Completing.antt =====
-- `complete_upload` beside the database.
use distributed_file_service.Prelude.{
  Bool, Bool-cases, List, Option, [], false, if◌then◌else◌, inl, inr, none, some, true, ◌&&◌, ◌∷◌,
}
use distributed_file_service.Text.{Text, truthy}
use distributed_file_service.Exec.{Error, modify, pure}
use distributed_file_service.Exec.Keeps.{
  Keeps, Keeps-bind, Keeps-catch, Keeps-if, Keeps-pure, Keeps-raise, Keeps-raise_if,
}
use distributed_file_service.Config.{is_s3_compatible}
use distributed_file_service.Models.{Chunk, Db, Upload}
use distributed_file_service.Limits.{Limiter}
use distributed_file_service.Storage.{Part}
use distributed_file_service.World.{AuthUser, Service, World, commit, or_raise}
use distributed_file_service.Uploads.Complete.{
  check_file, complete_again, complete_by_state, complete_fresh, complete_now, complete_replay,
  complete_upload, finish_multipart, mark_upload, missing_etag, parts_of, read_all, send_parts,
}
use distributed_file_service.Uploads.Beside.{
  Beside, IsCalm, Keeps-commit, Keeps-stored, beside_rules,
}

module _ {St Q : Type 0} {I : Limiter → St → Type 0} where
  Keeps-if_commit : (b : Bool) → Keeps (Beside {St = St} {Q = Q} I) (if b then commit else pure tt)
  Keeps-if_commit true = Keeps-commit
  Keeps-if_commit false = Keeps-pure tt

  Keeps-if_change :
      (f : World St Q → Bool) (g : World St Q → Db)
      → Keeps (Beside I) (modify (λ w. if f w then record w { session = g w } else w))
  Keeps-if_change f g = record {
    run = λ w h. elim (Bool-cases (f w)) [
      | inl e ↦ rw e (record { holds = h.holds })
      | inr e ↦ rw e (record { holds = h.holds })
    ];
  }

  pub mark_upload-Beside :
      (u : Upload) (print : Text) (key : Option Text)
      → Keeps (Beside {St = St} {Q = Q} I) (mark_upload u print key)
  unfolding mark_upload
  mark_upload-Beside u print key = search beside_rules

  pub complete_again-Beside :
      (u : Upload) (print : Text) (key : Option Text)
      → Keeps (Beside {St = St} {Q = Q} I) (complete_again u print key)
  unfolding complete_again
  complete_again-Beside u print key = search (beside_rules, Keeps-if_commit, Keeps-if_change)

  read_all-Beside :
      (v : Service St Q) → IsCalm I v.storage → (cs : List Chunk) → Keeps (Beside I) (read_all v cs)
  unfolding read_all
  read_all-Beside v calm [] = Keeps-pure []
  read_all-Beside v calm (c ∷ cs) =
      Keeps-bind _ _ (Keeps-stored (v.storage.read_chunk c.s3_key) (calm.reads c.s3_key))
        λ _. Keeps-bind _ _ (read_all-Beside v calm cs) (λ _. Keeps-pure _)

  check_file-Beside :
      (v : Service St Q)
      → IsCalm I v.storage
      → (o : Option Text) (cs : List Chunk) → Keeps (Beside I) (check_file v o cs)
  unfolding check_file
  check_file-Beside v calm none cs = Keeps-pure tt
  check_file-Beside v calm (some []) cs = Keeps-pure tt
  check_file-Beside v calm (some (c ∷ s)) cs =
      Keeps-bind _ _ (read_all-Beside v calm cs) (λ _. Keeps-raise_if _ _)

  parts-Beside :
      (o : Option (List Part)) (x : Error) → Keeps (Beside {St = St} {Q = Q} I) (or_raise o x)
  parts-Beside none x = record { run = λ w h. record { holds = h.holds } }
  parts-Beside (some ps) x = record { run = λ w h. record { holds = h.holds } }

  finish-Beside :
      (v : Service St Q)
      → IsCalm I v.storage
      → (u : Upload) (cs : List Chunk) → Keeps (Beside I) (finish_multipart v u cs)
  unfolding finish_multipart send_parts
  finish-Beside v calm u cs =
      Keeps-if (is_s3_compatible v.config && truthy u.multipart_upload_id) (send_parts v u cs)
        (pure tt)
        (λ _. Keeps-bind _ _ (parts-Beside (parts_of cs) missing_etag) λ parts.
          Keeps-catch _ _
            (Keeps-stored (v.storage.complete_upload u.id u.multipart_upload_id parts)
              (calm.ends u.id u.multipart_upload_id parts))
            (λ x. Keeps-raise _))
        (λ _. Keeps-pure tt)

  complete_now-Beside :
      (v : Service St Q)
      → IsCalm I v.storage
      → (u : Upload) (print : Text) (key : Option Text)
      → Keeps (Beside I) (complete_now v u print key)
  unfolding complete_now
  complete_now-Beside v calm u print key =
      search (beside_rules, check_file-Beside v calm, finish-Beside v calm, mark_upload-Beside)
        depth 9

  complete_replay-Beside :
      (print id : Text) (key : Option Text) (user : AuthUser)
      → Keeps (Beside {St = St} {Q = Q} I) (complete_replay print id key user)
  unfolding complete_replay
  complete_replay-Beside print id none user = record { run = λ w h. record { holds = h.holds } }
  complete_replay-Beside print id (some []) user = record {
    run = λ w h. record { holds = h.holds };
  }
  complete_replay-Beside print id (some (c ∷ key)) user = record {
    run = λ w h. record { holds = h.holds };
  }

  complete_fresh-Beside :
      (v : Service St Q)
      → IsCalm I v.storage
      → (u : Upload) (print : Text) (key : Option Text)
      → Keeps (Beside I) (complete_fresh v u print key)
  unfolding complete_fresh complete_by_state
  complete_fresh-Beside v calm u print key =
      search (beside_rules, complete_again-Beside, complete_now-Beside v calm)

  pub complete_upload-Beside :
      (v : Service St Q)
      → IsCalm I v.storage
      → (id : Text) (key : Option Text) (user : AuthUser)
      → Keeps (Beside I) (complete_upload v id key user)
  unfolding complete_upload
  complete_upload-Beside v calm id key user =
      search (beside_rules, complete_replay-Beside, complete_fresh-Beside v calm)
