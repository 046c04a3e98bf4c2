-- ===== src/Tests/Cleanups.antt =====
-- A cleanup at a concrete input.
use distributed_file_service.Prelude.{
  List, inl, false, [], any, arith, count, distinct, find, refl, some, true, ◌∷◌, ◌≡◌,
}
use distributed_file_service.Text.{codes, text_eq, text_eq_iff}
use distributed_file_service.Models.{
  Db, completed, constraints_hold, empty_db, has_id, in_progress, of_upload, uploaded_of,
}
use distributed_file_service.Maintenance.{cleanup_once}
use distributed_file_service.Maintenance.Completed.{StillThere, cleanup_once-StillThere}
use distributed_file_service.Maintenance.Kept.{Action, act_all, act_all-Kept, call, cleanup}
use distributed_file_service.Uploads.Serve.{missing}
use distributed_file_service.Uploads.Serve.Lifecycle.{Kept}
use distributed_file_service.Uploads.Sound.{IsSound}
use distributed_file_service.Maintenance.Sound.{StaysWhole, cleanup_once-IsSound}
use distributed_file_service.Tests.Data.{
  Local, alice, alices_upload, local_service, local_world, ready_db,
}

-- An upload in progress and a completed one, both a week old.
abbrev old_db : Db
old_db = record empty_db {
  uploads =
      record alices_upload { id = codes "b"; status = in_progress }
      ∷ record alices_upload { status = completed }
      ∷ [];
  chunks = ready_db.chunks;
}

abbrev old_world : Local
old_world = record local_world { db = old_db; session = old_db; now = 604800 }

old_db_is_unique : constraints_hold old_db ≡ true
unfolding constraints_hold distinct any text_eq
old_db_is_unique = refl

found_old :
    find (has_id (codes "a")) old_db.uploads ≡ some (record alices_upload { status = completed })
unfolding find text_eq
found_old = refl

cleanup_once-StillThere_example :
    StillThere
      (codes "a")
      (record alices_upload { status = completed })
      old_db
      (cleanup_once local_service true old_world).1.db
cleanup_once-StillThere_example =
    cleanup_once-StillThere local_service true old_world (codes "a")
      (record alices_upload { status = completed }) refl old_db_is_unique found_old refl

old_db-IsSound : IsSound old_db
unfolding find count distinct any uploaded_of of_upload text_eq
old_db-IsSound = record {
  complete = λ id u e d. ground (arith, text_eq_iff (codes "a") id, text_eq_iff (codes "b") id);
  rows = λ id u e. (record { fits = λ q. ground (arith, q) }, tt);
  no_orphan = λ id e. ground arith;
  initial = λ id u e s. ground arith;
  unique_chunks = refl;
}

cleanup_once-IsSound_example :
    IsSound (cleanup_once local_service true old_world).1.db
    × StaysWhole old_db (cleanup_once local_service true old_world).1.db
cleanup_once-IsSound_example = cleanup_once-IsSound local_service old_world refl old_db-IsSound

-- A cleanup a week after a request: the completed upload stays.
abbrev two_actions : List Action
two_actions =
    call (record { time = 1; user = alice; request = missing (codes "a") })
    ∷ cleanup old_world.now
    ∷ []

act_all-Kept_example :
    Kept
      (codes "a")
      (record alices_upload { status = completed })
      (act_all local_service false two_actions old_world).db
act_all-Kept_example =
    act_all-Kept local_service false two_actions old_world (codes "a")
      (record alices_upload { status = completed }) (unfold distinct any text_eq in refl) found_old
      (tt, (inl refl, tt))
