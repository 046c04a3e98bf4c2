-- ===== src/Tests/Requests.antt =====
-- Requests at concrete inputs.
use distributed_file_service.Prelude.{
  List, Option, [], arith, find, none, refl, some, ℕ, ◌∷◌, ◌≡◌, ◌≢◌,
}
use distributed_file_service.Text.{Bytes, Text, codes, lower, text_eq}
use distributed_file_service.Exec.{Exec, Outcome, ok, raised, unhandled}
use distributed_file_service.Config.{default_settings, use_external_durable_queue}
use distributed_file_service.Models.{has_id}
use distributed_file_service.Worker
use distributed_file_service.Storage.{StorageWriteResult}
use distributed_file_service.Storage.Local.{Files, local_storage}
use distributed_file_service.DurableQueue.{ChunkWriteTask}
use distributed_file_service.World.{Service}
use distributed_file_service.Uploads.Persist.{
  ChunkWrite, Stored, count_retry, persist_chunk, persist_once, persist_with_retries, run_on_pool,
}
use distributed_file_service.Uploads.Persist.Retries.{
  Fails, fails, no_failure, persist_with_retries_success, persist_with_retries_total,
}
use distributed_file_service.Uploads.ChunkUpload.{upload_chunk, write_of}
use distributed_file_service.Uploads.ChunkUpload.Effect.{ChunkEffect, upload_chunk-effect}
use distributed_file_service.Tests.Data.{
  Local, a_request, a_schedule, alice, alices_upload, local_service, local_world,
}

found_upload : find (has_id (codes "a")) local_world.session.uploads ≡ some alices_upload
unfolding find text_eq
found_upload = refl

bob_is_not_alice : codes "alice" ≢ codes "bob"
bob_is_not_alice e = ground arith

upload_chunk-effect_example :
    ChunkEffect local_service a_schedule a_request alice local_world
      (upload_chunk local_service a_schedule a_request alice local_world)
upload_chunk-effect_example =
    upload_chunk-effect local_service a_schedule a_request alice local_world refl

abbrev a_write : ChunkWrite
a_write = write_of alices_upload a_request

-- A store whose first write fails, and whose later writes do not.
abbrev flaky_write : Text → ℕ → Bytes → Option Text → Exec Files StorageWriteResult
flaky_write id index bytes multipart [] = (raised (unhandled "disk"), (codes "touched", []) ∷ [])
flaky_write id index bytes multipart (f ∷ files) =
    (ok (record { key = codes "k"; etag = none }), f ∷ files)

abbrev flaky_service : Service Files (List ChunkWriteTask)
flaky_service = record local_service {
  storage = record local_storage { write_chunk = flaky_write };
}

-- The world after the first attempt, counted as a retry.
abbrev touched_world : Local
touched_world = count_retry (persist_once flaky_service a_schedule 0 a_write local_world).1

abbrev first_outcome : Outcome Stored × Local
first_outcome = persist_once flaky_service a_schedule 0 a_write local_world

abbrev second_outcome : Outcome Stored × Local
second_outcome = persist_once flaky_service a_schedule 1 a_write touched_world

first_fails : first_outcome ≡ (raised (unhandled "disk"), first_outcome.1)
unfolding persist_once use_external_durable_queue lower text_eq run_on_pool persist_chunk
    Worker.submit Worker.try_admit Worker.on_start Worker.on_end Worker.adjust_thread_count
first_fails = refl

second_succeeds : second_outcome ≡ (ok (codes "k", none), second_outcome.1)
unfolding persist_once use_external_durable_queue lower text_eq run_on_pool persist_chunk
    Worker.submit Worker.try_admit Worker.on_start Worker.on_end Worker.adjust_thread_count
second_succeeds = refl

one_failure : Fails flaky_service a_schedule a_write 0 1 local_world touched_world
one_failure = fails 0 local_world first_outcome.1 "disk" first_fails (no_failure 1 touched_world)

persist_with_retries_success_example :
    persist_with_retries 4 flaky_service a_schedule 0 a_write local_world
    ≡ (ok ((codes "k", none), 1), second_outcome.1)
persist_with_retries_success_example =
    persist_with_retries_success flaky_service a_schedule a_write 1 (codes "k", none)
      second_outcome.1 one_failure (omega arith) second_succeeds

-- The same store, and no retry allowed.
abbrev strict_service : Service Files (List ChunkWriteTask)
strict_service = record flaky_service { config = record default_settings { max_retries = 0 } }

abbrev strict_outcome : Outcome Stored × Local
strict_outcome = persist_once strict_service a_schedule 0 a_write local_world

persist_with_retries_total_example :
    (persist_with_retries 4 flaky_service a_schedule 0 a_write local_world).0
    ≢ raised (unhandled "disk")
persist_with_retries_total_example =
    persist_with_retries_total flaky_service a_schedule a_write local_world "disk"
