-- ===== src/Uploads/Persist.antt =====
-- How app/main.py stores the bytes of a chunk: on the worker pool, or through the durable queue and
-- a consumer, with retries.
pub mod Frame
pub mod Retries
pub mod Drain
pub mod Queued
use distributed_file_service.Prelude.{Option, if◌then◌else◌, ltb, none, some, suc, zero, ℕ, ◌+◌}
use distributed_file_service.Text.{Bytes, Text}
use distributed_file_service.Exec.{
  Error, Exec, Outcome, gets, http, http_error, message_of, modify, ok, pure, raise, raised,
  try_except, try_finally, unhandled, zoom, ◌>>=◌, ◌>>◌,
}
use distributed_file_service.Config.{use_external_durable_queue}
use distributed_file_service.Worker.{on_end, on_start, submit}
use distributed_file_service.DurableQueue.{
  QueueMessage, Results, TaskResult, failure, from_bytes, poll, set_error, set_success, success,
  task_data,
}
use distributed_file_service.World.{Service, World, in_store, or_raise}

-- The arguments of `_persist_chunk`.
pub record ChunkWrite : Type 0 where
  pub upload_id : Text
  pub chunk_index : ℕ
  pub bytes : Bytes
  pub multipart_upload_id : Option Text

-- The key and the etag of the object.
abbrev pub Stored : Type 0
Stored = Text × Option Text

-- What the environment decides: the ids of new tasks by attempt, and how often a waiting request
-- polls before its deadline.
pub record Schedule : Type 0 where
  pub task_id : ℕ → Text
  pub polls : ℕ

abbrev pub wait_timeout : Error
wait_timeout = http_error 504 "chunk task timeout while waiting for durable queue result"

abbrev pub too_many_rounds : Error
too_many_rounds = unhandled "the retry loop did not end"

module _ {St Q : Type 0} where
  -- `_persist_chunk`.
  unfoldable pub persist_chunk : Service St Q → ChunkWrite → Exec (World St Q) Stored
  persist_chunk v c = do
    result ←
        in_store (v.storage.write_chunk c.upload_id c.chunk_index c.bytes c.multipart_upload_id)
    pure (result.key, result.etag)

  abbrev pub in_results : (Results → Results) → World St Q → World St Q
  in_results f w = record w { results = f w.results }

  abbrev pub in_queue : {A : Type 0} → Exec Q A → Exec (World St Q) A
  in_queue = zoom (λ w. w.queue) (λ q w. record w { queue = q })

  -- `message.task.data()`.
  unfoldable pub data_of : QueueMessage → Exec (World St Q) Bytes
  data_of message = or_raise (task_data message.task) (unhandled "binascii.Error")

  unfoldable pub store_message : Service St Q → QueueMessage → Exec (World St Q) Unit
  store_message v message = do
    bytes ← data_of message
    stored ← persist_chunk v (record {
      upload_id = message.task.upload_id;
      chunk_index = message.task.chunk_index;
      bytes = bytes;
      multipart_upload_id = message.task.multipart_upload_id;
    })
    modify (in_results (set_success message.task.task_id stored.0 stored.1))
    in_queue (v.durable_queue.ack message.receipt)

  -- `_process_queue_message`.
  unfoldable pub process_queue_message : Service St Q → QueueMessage → Exec (World St Q) Unit
  process_queue_message v message = try_except (store_message v message) λ e. do
    modify (in_results (set_error message.task.task_id (message_of "" e)))
    try_except (in_queue (v.durable_queue.ack message.receipt)) (λ _. pure tt)

  -- One round of `_durable_queue_consumer_loop`; an exception is logged.
  unfoldable pub consumer_round : Service St Q → Exec (World St Q) Unit
  consumer_round v =
      try_except
        (do
          message ← in_queue v.durable_queue.dequeue
          elim message [ none ↦ pure tt | some m ↦ process_queue_message v m ])
        (λ _. pure tt)

  -- `chunk_result_store.wait`. The handler is a coroutine and blocks its event loop here, on which the
  -- consumers run: no consumer goes on between two polls.
  unfoldable pub wait_result : ℕ → Text → Exec (World St Q) (Option TaskResult)
  wait_result zero task_id = pure none
  wait_result (suc polls) task_id = do
    result ← gets (λ w. (poll task_id w.results).0)
    modify (in_results (λ r. (poll task_id r).1))
    let later = wait_result polls task_id
    elim result [ some r ↦ pure (some r) | none ↦ later ]

  abbrev pub outcome_of : Option TaskResult → Exec (World St Q) Stored
  outcome_of none = raise wait_timeout
  outcome_of (some (success key etag)) = pure (key, etag)
  outcome_of (some (failure error)) = raise (unhandled error)

  -- `_persist_chunk_via_durable_queue`.
  unfoldable pub persist_chunk_via_durable_queue :
      Service St Q → Schedule → ℕ → ChunkWrite → Exec (World St Q) Stored
  persist_chunk_via_durable_queue v schedule attempt c = do
    let id = schedule.task_id attempt
    in_queue (
        v.durable_queue.enqueue
          (from_bytes id c.upload_id c.chunk_index c.bytes c.multipart_upload_id))
    result ← wait_result schedule.polls id
    outcome_of result

  -- `executor.submit(...)` and `future.result()`: the task runs on a thread of the pool.
  unfoldable pub run_on_pool : {A : Type 0} → Exec (World St Q) A → Exec (World St Q) A
  run_on_pool task = do
    zoom (λ w. w.executor) (λ b w. record w { executor = b }) submit
    modify (λ w. record w { executor = on_start w.executor })
    try_finally task (λ w. record w { executor = on_end w.executor })

  unfoldable pub persist_once : Service St Q → Schedule → ℕ → ChunkWrite → Exec (World St Q) Stored
  persist_once v schedule attempt c =
      if use_external_durable_queue v.config
      then persist_chunk_via_durable_queue v schedule attempt c
      else run_on_pool (persist_chunk v c)

  abbrev pub count_retry : World St Q → World St Q
  count_retry w = record w {
    metrics = record w.metrics { retries_total = w.metrics.retries_total + 1 };
  }

  abbrev pub count_failure : World St Q → World St Q
  count_failure w = record w {
    metrics = record w.metrics {
      chunk_upload_failures_total = w.metrics.chunk_upload_failures_total + 1;
    };
  }

  -- What the loop does with the outcome of one attempt; `again` is the next round. An HTTPException
  -- goes up at once.
  unfoldable pub after_attempt :
      ℕ
      → ℕ
      → Exec (World St Q) (Stored × ℕ)
      → Outcome Stored × World St Q
      → Outcome (Stored × ℕ) × World St Q
  after_attempt max_retries retries again (ok stored, w) = (ok (stored, retries), w)
  after_attempt max_retries retries again (raised (http e), w) = (raised (http e), w)
  after_attempt max_retries retries again (raised (unhandled text), w) =
      if ltb max_retries (retries + 1)
      then (
        raised (http_error 500 (message_of "chunk upload failed: " (unhandled text))),
        count_failure (count_retry w),
      )
      else again (count_retry w)

  -- The loop of `upload_chunk`, with fuel for one attempt a round.
  unfoldable pub persist_with_retries :
      ℕ → Service St Q → Schedule → ℕ → ChunkWrite → Exec (World St Q) (Stored × ℕ)
  persist_with_retries zero v schedule retries c w = (raised too_many_rounds, w)
  persist_with_retries (suc fuel) v schedule retries c w =
      let again = persist_with_retries fuel v schedule (retries + 1) c in
      after_attempt v.config.max_retries retries again (persist_once v schedule retries c w)
