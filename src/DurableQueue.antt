-- ===== src/DurableQueue.antt =====
-- app/durable_queue.py: the tasks that chunk writes travel as, the queue interface with its
-- in-memory class, and the store in which a consumer leaves the result for the request that waits.
pub mod Base64
pub mod Delivery
use Prim.Native.String.{String}
use distributed_file_service.Prelude.{List, Option, [], none, some, ℕ, ◌++◌, ◌∷◌}
use distributed_file_service.Text.{Bytes, Text}
use distributed_file_service.Exec.{Exec, ok, pure}
use distributed_file_service.Dict.{Dict, insert, lookup, remove}
use Base64.{encode, decode}

pub record ChunkWriteTask : Type 0 where
  pub task_id : Text
  pub upload_id : Text
  pub chunk_index : ℕ
  pub multipart_upload_id : Option Text
  pub data_b64 : Text

-- `ChunkWriteTask.from_bytes`; the id, a new `uuid4`, is an argument.
unfoldable pub from_bytes : Text → Text → ℕ → Bytes → Option Text → ChunkWriteTask
from_bytes task_id upload_id chunk_index bytes multipart_upload_id = record {
  task_id = task_id;
  upload_id = upload_id;
  chunk_index = chunk_index;
  multipart_upload_id = multipart_upload_id;
  data_b64 = encode bytes;
}

-- `data()`; `none` is a `binascii.Error`.
unfoldable pub task_data : ChunkWriteTask → Option Bytes
task_data task = decode task.data_b64

pub record QueueMessage : Type 0 where
  pub receipt : Text
  pub task : ChunkWriteTask

-- The class `DurableQueue`; `Q` is the state behind it.
pub record DurableQueue (Q : Type 0) : Type 0 where
  pub enqueue : ChunkWriteTask → Exec Q Unit
  pub dequeue : Exec Q (Option QueueMessage)
  pub ack : Text → Exec Q Unit

-- `MemoryDurableQueue`. `get` with a timeout comes back empty when nothing is put meanwhile.
unfoldable pub memory_dequeue : Exec (List ChunkWriteTask) (Option QueueMessage)
memory_dequeue [] = (ok none, [])
memory_dequeue (task ∷ tasks) = (ok (some (record { receipt = task.task_id; task = task })), tasks)

abbrev pub memory_queue : DurableQueue (List ChunkWriteTask)
memory_queue = record {
  enqueue = λ task tasks. (ok tt, tasks ++ task ∷ []);
  dequeue = memory_dequeue;
  ack = λ receipt. pure tt;
}

pub data TaskResult : Type 0 where
  success : Text → Option Text → TaskResult
  failure : String → TaskResult

-- `ChunkResultStore`: each method holds the lock.
abbrev pub Results : Type 0
Results = Dict TaskResult

unfoldable pub set_success : Text → Text → Option Text → Results → Results
set_success task_id key etag results = insert task_id (success key etag) results

unfoldable pub set_error : Text → String → Results → Results
set_error task_id error results = insert task_id (failure error) results

-- One poll of `wait`: `self._results.pop(task_id, None)`.
unfoldable pub poll : Text → Results → Option TaskResult × Results
poll task_id results = (lookup task_id results, remove task_id results)

-- `wait`: one poll for each entry of the list, which is what the other threads do to the store
-- before the next poll; the deadline passes at its end.
unfoldable pub wait : List (Results → Results) → Text → Results → Option TaskResult × Results
unfolding poll
wait [] task_id results = (none, results)
wait (others ∷ rest) task_id results =
    let later = wait rest task_id (others (poll task_id results).1) in
    elim (poll task_id results).0 [
      | none ↦ later
      | some result ↦ (some result, (poll task_id results).1)
    ]
