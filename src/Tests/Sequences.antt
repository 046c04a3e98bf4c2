-- ===== src/Tests/Sequences.antt =====
-- Sequences of requests, and their tables, at concrete inputs.
use distributed_file_service.Prelude.{
  List, [], any, arith, count, distinct, find, none, refl, some, update, ◌*◌, ◌<◌, ◌↔◌, ◌∷◌, ◌≡◌,
  ◌≤◌, ◌^◌, ◌+◌,
}
use distributed_file_service.Text.{codes, lower, text_eq}
use distributed_file_service.Exec.{ok}
use distributed_file_service.Dict.{lookup, insert, remove}
use distributed_file_service.Config.{use_external_durable_queue}
use distributed_file_service.Limits
use distributed_file_service.Worker
use distributed_file_service.Models.{constraints_hold, empty_db, uploaded}
use distributed_file_service.Storage.{chunk_key}
use distributed_file_service.Storage.Local.{write_chunk}
use distributed_file_service.World.{commit}
use distributed_file_service.Uploads.Access.{get_owned_upload, check_owner}
use distributed_file_service.Uploads.Init.{InitUploadRequest, chunk_size_of, new_upload, ceil_div}
use distributed_file_service.Uploads.Init.Size.{total_chunks-covers}
use distributed_file_service.Uploads.Persist.{
  persist_with_retries, persist_once, after_attempt, persist_chunk, run_on_pool,
}
use distributed_file_service.Uploads.ChunkUpload.{
  UploadChunkResponse, upload_chunk, check_body, check_chunk, check_target, chunk_replay, limited,
  store_and_record, record_chunk, put_chunk, checksum_differs,
}
use distributed_file_service.Uploads.ChunkUpload.Acknowledged.{Recorded, upload_chunk-Recorded}
use distributed_file_service.Uploads.Sound.{IsSound}
use distributed_file_service.Uploads.Serve.{Call, chunk, complete, init, serve_all}
use distributed_file_service.Uploads.Serve.Invariant.{empty-IsSound, serve_all-IsSound}
use distributed_file_service.Tests.Data.{
  Local, a_request, a_schedule, alice, bob, local_service, local_world,
}

abbrev a_response : UploadChunkResponse
a_response = record { upload_id = codes "a"; chunk_index = 0; status = uploaded }

a_chunk_is_taken :
    (upload_chunk local_service a_schedule a_request alice local_world).0 ≡ ok a_response
unfolding upload_chunk get_owned_upload check_owner check_chunk check_target check_body chunk_replay
    limited store_and_record record_chunk put_chunk checksum_differs persist_with_retries
    persist_once after_attempt persist_chunk run_on_pool use_external_durable_queue lower text_eq
    Limits.acquire Limits.release Worker.submit Worker.try_admit Worker.on_start Worker.on_end
    Worker.adjust_thread_count write_chunk chunk_key lookup insert remove find update count commit
    constraints_hold distinct any
a_chunk_is_taken = refl

upload_chunk-Recorded_example :
    Recorded (codes "a") 0 (upload_chunk local_service a_schedule a_request alice local_world).1.db
upload_chunk-Recorded_example =
    upload_chunk-Recorded local_service a_schedule a_request local_world alice a_response refl
      a_chunk_is_taken

abbrev a_payload : InitUploadRequest
a_payload = record {
  file_name = codes "g.txt";
  file_size = 10;
  chunk_size = some 4;
  file_checksum_sha256 = none;
}

a_chunk_size : 0 < chunk_size_of local_service.config a_payload
unfolding chunk_size_of
a_chunk_size = omega arith

total_chunks-covers_example :
    let u = new_upload local_service (codes "b") a_payload alice 0 in
    (u.total_chunks ≤ 3) ↔ (10 ≤ 3 * u.chunk_size)
total_chunks-covers_example =
    total_chunks-covers local_service (codes "b") a_payload alice 0 3 (omega arith) a_chunk_size

-- A file of 2^53 + 1 bytes in chunks of one byte is given one chunk too few.
a_chunk_is_missing : ceil_div (2 ^ 53 + 1) 1 ≡ 2 ^ 53
unfolding ceil_div
a_chunk_is_missing = refl

floats_are_rounded : (ceil_div (2 ^ 55 + 6) 1 ≡ 2 ^ 55 + 8) × (ceil_div (2 ^ 53 + 1) 2 ≡ 2 ^ 52)
unfolding ceil_div
floats_are_rounded = (refl, refl)

-- An upload is announced, a chunk is sent, and another user asks for its completion.
abbrev three_calls : List Call
three_calls =
    record { time = 1; user = alice; request = init (codes "b") a_payload none }
    ∷ record { time = 2; user = alice; request = chunk a_schedule a_request }
    ∷ record { time = 3; user = bob; request = complete (codes "a") none }
    ∷ []

abbrev empty_world : Local
empty_world = record local_world { db = empty_db; session = empty_db }

serve_all-IsSound_example : IsSound (serve_all local_service three_calls empty_world).db
serve_all-IsSound_example = serve_all-IsSound local_service three_calls empty_world empty-IsSound
