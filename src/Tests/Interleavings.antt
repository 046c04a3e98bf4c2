-- ===== src/Tests/Interleavings.antt =====
-- Interleaved requests at concrete inputs.
use distributed_file_service.Prelude.{
  List, [], any, arith, count, distinct, false, find, inl, map, none, refl, select, some, take,
  true, update, ◌∷◌, ◌≡◌, ◌≤◌,
}
use distributed_file_service.Text.{Text, codes, lower, text_eq}
use distributed_file_service.Exec.{ok, raised}
use distributed_file_service.Dict.{insert, lookup, remove}
use distributed_file_service.Config.{is_s3_compatible, use_external_durable_queue}
use distributed_file_service.Json.{dumps}
use distributed_file_service.DurableQueue.{ChunkWriteTask}
use distributed_file_service.Limits
use distributed_file_service.Limits.Holders.{cap}
use distributed_file_service.Worker
use distributed_file_service.Models.{
  Upload, completed, constraints_hold, has_id, in_progress, insert_chunk, is_chunk, of_upload,
  order_by_index, uploaded_of,
}
use distributed_file_service.Storage.{chunk_key}
use distributed_file_service.Storage.Local.{Files, read_chunk, write_chunk}
use distributed_file_service.World.{commit, fingerprint, open_session}
use distributed_file_service.Uploads.Access.{check_owner, get_owned_upload}
use distributed_file_service.Uploads.Persist.{
  after_attempt, persist_chunk, persist_once, persist_with_retries, run_on_pool,
}
use distributed_file_service.Uploads.ChunkUpload.{
  ChunkRequest, check_body, check_target, checksum_differs, chunk_replay, upload_chunk,
}
use distributed_file_service.Uploads.Complete.{
  check_file, chunks_of, complete_replay, finish_multipart, mark_upload,
}
use distributed_file_service.Uploads.Sound.{IsSound}
use distributed_file_service.Uploads.Serve.Lifecycle.{Advances}
use distributed_file_service.Uploads.Interleaved.Chunks.{
  admit, advance_chunk, chunk_answered, commit_chunk, load_for_chunk, try_commit, write_chunk_row,
}
use distributed_file_service.Uploads.Interleaved.Completion.{
  advance_complete, assemble, check_state, load_for_complete,
}
use distributed_file_service.Uploads.Interleaved.Systems.{
  Event, System, advance_at, advance_thread, advances, chunk_comes, chunk_thread, complete_comes,
  complete_thread, run, step,
}
use distributed_file_service.Uploads.Interleaved.Tables.Runs.{run-IsSound}
use distributed_file_service.Uploads.Interleaved.Slots.Exact.{holds_slot}
use distributed_file_service.Uploads.Interleaved.Slots.Runs.{IsExact, run-holds_slot}
use distributed_file_service.Uploads.Interleaved.Forward.Onward.{run-Advances}
use distributed_file_service.Uploads.Interleaved.Alone.{run-upload_chunk}
use distributed_file_service.Uploads.Interleaved.OneProcess.{
  answer_chunk, resume, resume_at, turn, turns,
}
use distributed_file_service.Uploads.Interleaved.OneProcess.Free.{turns-none_refused}
use distributed_file_service.Tests.Data.{
  a_request, a_schedule, alice, alices_upload, local_service, local_world, ready_world,
}

-- The same chunk with other bytes.
abbrev other_request : ChunkRequest
other_request = record a_request { body = 4 ∷ 5 ∷ 6 ∷ [] }

-- In one process two requests load the upload as INITIATED and wait for their bodies; the second one
-- is recorded and the upload completed, then the body of the first one comes.
abbrev late_first_chunk : List Event
late_first_chunk =
    chunk_comes a_schedule a_request alice
    ∷ chunk_comes a_schedule other_request alice
    ∷ advances 0
    ∷ complete_comes (codes "a") none alice
    ∷ advances 0
    ∷ advances 0
    ∷ advances 0
    ∷ advances 0
    ∷ advances 2
    ∷ []

abbrev start : System Files (List ChunkWriteTask)
start = record { world = local_world; threads = [] }

-- A completed upload is IN_PROGRESS again.
completed_is_reopened :
    map (λ u. u.status) (turns local_service late_first_chunk start).world.db.uploads
    ≡ in_progress ∷ []
unfolding turns turn resume_at resume answer_chunk step advance_at advance_thread advance_chunk
    advance_complete try_commit admit load_for_chunk load_for_complete check_state assemble
    commit_chunk write_chunk_row mark_upload complete_replay chunks_of order_by_index insert_chunk
    select check_file finish_multipart is_s3_compatible uploaded_of of_upload is_chunk fingerprint
    dumps get_owned_upload check_owner check_target check_body chunk_replay checksum_differs
    persist_with_retries persist_once after_attempt persist_chunk run_on_pool
    use_external_durable_queue lower text_eq Limits.acquire Limits.release Worker.submit
    Worker.try_admit Worker.on_start Worker.on_end Worker.adjust_thread_count write_chunk chunk_key
    lookup insert remove find update count commit constraints_hold distinct any
completed_is_reopened = refl

-- In two processes, two requests send different bytes for the same chunk: the bytes of the second one are stored last,
-- and the row of the first one is committed last.
abbrev crossed_commits : List Event
crossed_commits =
    chunk_comes a_schedule a_request alice
    ∷ chunk_comes a_schedule other_request alice
    ∷ advances 1
    ∷ advances 0
    ∷ advances 1
    ∷ advances 0
    ∷ advances 1
    ∷ advances 0
    ∷ advances 0
    ∷ advances 0
    ∷ advances 1
    ∷ advances 1
    ∷ []

-- The row has the checksum of bytes that are not in the store.
row_without_its_bytes :
    let w = (run local_service crossed_commits start).world in
    (map (λ c. c.chunk_checksum_sha256) w.db.chunks ≡ some a_request.body ∷ [])
    × (map (λ c. (local_service.storage.read_chunk c.s3_key w.store).0) w.db.chunks
        ≡ ok other_request.body ∷ [])
unfolding run step advance_at advance_thread advance_chunk advance_complete try_commit admit
    load_for_chunk load_for_complete check_state assemble commit_chunk write_chunk_row mark_upload
    complete_replay chunks_of order_by_index insert_chunk select check_file finish_multipart
    is_s3_compatible uploaded_of of_upload is_chunk fingerprint dumps get_owned_upload check_owner
    check_target check_body chunk_replay checksum_differs persist_with_retries persist_once
    after_attempt persist_chunk run_on_pool use_external_durable_queue lower text_eq Limits.acquire
    Limits.release Worker.submit Worker.try_admit Worker.on_start Worker.on_end
    Worker.adjust_thread_count write_chunk chunk_key lookup insert remove find update count commit
    constraints_hold distinct any read_chunk
row_without_its_bytes = (refl, refl)

-- In two processes, both requests find no row, and the second to commit fails on the unique constraint.
abbrev two_new_rows : List Event
two_new_rows =
    chunk_comes a_schedule a_request alice
    ∷ chunk_comes a_schedule other_request alice
    ∷ advances 1
    ∷ advances 0
    ∷ advances 1
    ∷ advances 0
    ∷ advances 1
    ∷ advances 0
    ∷ advances 1
    ∷ advances 0
    ∷ advances 1
    ∷ advances 0
    ∷ []

second_commit_fails :
    map
      (λ t. elim t [
        | chunk_thread s r phase ↦ elim phase [
          | chunk_answered o ↦ elim o [ ok out ↦ true | raised e ↦ false ]
          | _ ↦ false
        ]
        | complete_thread i k phase ↦ false
      ])
      (run local_service two_new_rows start).threads
    ≡ false ∷ true ∷ []
unfolding run step advance_at advance_thread advance_chunk advance_complete try_commit admit
    load_for_chunk load_for_complete check_state assemble commit_chunk write_chunk_row mark_upload
    complete_replay chunks_of order_by_index insert_chunk select check_file finish_multipart
    is_s3_compatible uploaded_of of_upload is_chunk fingerprint dumps get_owned_upload check_owner
    check_target check_body chunk_replay checksum_differs persist_with_retries persist_once
    after_attempt persist_chunk run_on_pool use_external_durable_queue lower text_eq Limits.acquire
    Limits.release Worker.submit Worker.try_admit Worker.on_start Worker.on_end
    Worker.adjust_thread_count write_chunk chunk_key lookup insert remove find update count commit
    constraints_hold distinct any
second_commit_fails = refl

pub local_world-IsSound : IsSound local_world.db
unfolding find count distinct
local_world-IsSound = record {
  complete = λ id u e d. absurd (ground (arith, e, d));
  rows = λ id u e. tt;
  no_orphan = λ id e. refl;
  initial = λ id u e s. refl;
  unique_chunks = refl;
}

run-IsSound_example : IsSound (run local_service late_first_chunk start).world.db
run-IsSound_example = run-IsSound local_service late_first_chunk local_world local_world-IsSound

start-IsExact : IsExact local_world.limiter []
unfolding count lookup
start-IsExact = record { exact = λ id. refl; within = λ id. omega arith }

run-holds_slot_example :
    let s = run local_service (take 4 crossed_commits) start in
    (Limits.current s.world.limiter (codes "a") ≡ count (holds_slot (codes "a")) s.threads)
    × (count (holds_slot (codes "a")) s.threads ≤ cap local_world.limiter)
run-holds_slot_example =
    run-holds_slot local_service (take 4 crossed_commits) start (codes "a") start-IsExact

-- The upload is in progress when the requests come.
abbrev begun : System Files (List ChunkWriteTask)
begun = record { world = ready_world; threads = [] }

abbrev begun_upload : Upload
begun_upload = record alices_upload { status = in_progress }

run-Advances_example :
    (t : Upload) × (find
        (has_id (codes "a"))
        (run local_service late_first_chunk begun).world.db.uploads
      ≡ some t)
    × Advances begun_upload t
    × (begun_upload.status ≡ completed → t.status ≡ completed)
run-Advances_example =
    run-Advances local_service (codes "a") begun_upload late_first_chunk begun
      (unfold find text_eq in refl) (inl refl) (unfold any in refl)

run-upload_chunk_example :
    let p = upload_chunk local_service a_schedule a_request alice (open_session local_world) in
    let s =
      run local_service
        (chunk_comes a_schedule a_request alice
          ∷ advances 0
          ∷ advances 0
          ∷ advances 0
          ∷ advances 0
          ∷ advances 0
          ∷ [])
        start in
    (s.threads ≡ chunk_thread a_schedule a_request (chunk_answered p.0) ∷ [])
    × (s.world ≡ record p.1 { session = s.world.session })
run-upload_chunk_example =
    run-upload_chunk local_service a_schedule a_request alice local_world
      (unfold constraints_hold distinct any in refl)

turns-none_refused_example :
    let l = (turns local_service late_first_chunk start).world.limiter in
    (l.throttled_requests_total ≡ 0) × ((id : Text) → Limits.current l id ≡ 0)
turns-none_refused_example =
    turns-none_refused local_service late_first_chunk local_world (λ id. unfold lookup in refl)
      (omega arith)
