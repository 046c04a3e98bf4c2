-- ===== src/Tests/StoredBytes.antt =====
-- Runs on the stored bytes as a map.
use distributed_file_service.Dict.{insert, lookup, remove}
use distributed_file_service.Json.{dumps}
use distributed_file_service.Models.{
  Upload, completed, constraints_hold, has_id, insert_chunk, is_chunk, of_upload, order_by_index,
  uploaded_of,
}
use distributed_file_service.Storage.{chunk_key}
use distributed_file_service.Storage.Local.{write_chunk}
use distributed_file_service.World.{commit, fingerprint, open_session}
use distributed_file_service.Uploads.Access.{check_owner, get_owned_upload}
use distributed_file_service.Uploads.Persist.{
  after_attempt, persist_chunk, persist_once, persist_with_retries, run_on_pool,
}
use distributed_file_service.Uploads.ChunkUpload.{
  check_body, check_chunk, check_target, checksum_differs, chunk_replay, limited, put_chunk,
  record_chunk, store_and_record, upload_chunk,
}
use distributed_file_service.Uploads.Complete.{
  check_file, chunks_of, complete_by_state, complete_fresh, complete_now, complete_replay,
  complete_upload, finish_multipart, mark_upload,
}
use distributed_file_service.Uploads.Contents.Downloads.{Answers, serve_all-Answers}
use distributed_file_service.Tests.Interleavings.{local_world-IsSound}
use distributed_file_service.Limits
use distributed_file_service.Worker
use distributed_file_service.Prelude.{
  List, [], any, arith, count, distinct, find, none, refl, select, some, update, ◌∷◌, ◌≡◌,
}
use distributed_file_service.Config.{default_settings, is_s3_compatible, use_external_durable_queue}
use distributed_file_service.Text.{codes, lower, text_eq}
use distributed_file_service.DurableQueue.{memory_queue}
use distributed_file_service.Uploads.Serve.{Call, chunk, complete, handle, serve, serve_all}
use distributed_file_service.Uploads.Contents.{IsLinked, Runs, contents, on_disk}
use distributed_file_service.Uploads.Contents.Refines.{serve_all-Runs}
use distributed_file_service.Tests.Data.{
  a_request, a_schedule, alice, alices_upload, bob, local_service, local_world,
}

no_rows-IsLinked : IsLinked [] []
unfolding find
no_rows-IsLinked = record {
  keys = λ id index c e. absurd (ground (arith, e));
  stored = λ id index c e. absurd (ground (arith, e));
}

-- A chunk is sent, another one in its place, and another user asks for completion.
abbrev calls : List Call
calls =
    record { time = 1; user = alice; request = chunk a_schedule a_request }
    ∷ record {
      time = 2;
      user = alice;
      request =
          chunk a_schedule
            (record a_request { body = b'z' ∷ []; content_length = 1; chunk_sha256 = none });
    }
    ∷ record { time = 3; user = bob; request = complete (codes "a") none }
    ∷ []

serve_all-Runs_example :
    let w' = serve_all (on_disk default_settings memory_queue (λ bytes. bytes)) calls local_world in
    Runs calls (contents [] []) (contents w'.db.chunks w'.store) × IsLinked w'.db.chunks w'.store
serve_all-Runs_example =
    serve_all-Runs default_settings memory_queue (λ bytes. bytes)
      (unfold use_external_durable_queue in refl) calls local_world no_rows-IsLinked

-- The only chunk is sent and the upload is completed.
abbrev whole_upload : List Call
whole_upload =
    record { time = 1; user = alice; request = chunk a_schedule a_request }
    ∷ record { time = 2; user = alice; request = complete (codes "a") none }
    ∷ []

abbrev whole : Upload
whole = record alices_upload { status = completed; updated_at = 2 }

is_completed_at_end :
    find (has_id (codes "a")) (serve_all local_service whole_upload local_world).db.uploads
    ≡ some whole
unfolding serve_all serve handle upload_chunk complete_upload complete_fresh complete_by_state
    complete_now get_owned_upload check_owner check_chunk check_target check_body chunk_replay
    limited store_and_record record_chunk put_chunk checksum_differs persist_with_retries
    persist_once after_attempt persist_chunk run_on_pool use_external_durable_queue lower text_eq
    Limits.acquire Limits.release Worker.submit Worker.try_admit Worker.on_start Worker.on_end
    Worker.adjust_thread_count write_chunk chunk_key lookup insert remove find update count commit
    constraints_hold distinct any mark_upload complete_replay chunks_of order_by_index insert_chunk
    select check_file finish_multipart is_s3_compatible uploaded_of of_upload is_chunk fingerprint
    dumps
is_completed_at_end = refl

serve_all-Answers_example :
    Answers default_settings memory_queue
      (λ bytes. bytes)
      (codes "a")
      alice
      whole
      (open_session (serve_all local_service whole_upload local_world))
serve_all-Answers_example =
    serve_all-Answers default_settings memory_queue (λ bytes. bytes)
      (unfold use_external_durable_queue in refl) whole_upload local_world (codes "a") alice whole
      local_world-IsSound no_rows-IsLinked is_completed_at_end refl refl (omega arith)
