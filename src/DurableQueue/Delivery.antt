-- ===== src/DurableQueue/Delivery.antt =====
-- Results reach the request that waits for them, once, and tasks travel in order and unchanged.
use distributed_file_service.Prelude.{All, List, Option, arith, none, refl, some, ℕ, ◌∷◌, ◌≡◌, ◌≢◌}
use distributed_file_service.Text.{Bytes, Text, text_eq_iff, text_eq_refl}
use distributed_file_service.Dict.{lookup, lookup-remove}
use distributed_file_service.DurableQueue.{Results, TaskResult, from_bytes, task_data, wait}
use distributed_file_service.DurableQueue.Base64.{IsByte, decode-encode}

-- The bytes of a task are those that it was made from.
pub task_data-from_bytes :
    (task_id upload_id : Text) (index : ℕ) (bytes : Bytes) (multipart : Option Text)
    → All IsByte bytes
    → task_data (from_bytes task_id upload_id index bytes multipart) ≡ some bytes
unfolding task_data from_bytes
task_data-from_bytes task_id upload_id index bytes multipart h = decode-encode bytes h

-- A result that is in the store when the wait begins, with at least one poll before the deadline,
-- is returned, and is then no longer in the store; the results of other tasks stay.
pub wait_delivers :
    (others : Results → Results) (rest : List (Results → Results)) (task_id other : Text)
    (results : Results) (r : TaskResult)
    → lookup task_id results ≡ some r
    → ((wait (others ∷ rest) task_id results).0 ≡ some r)
      × (lookup task_id (wait (others ∷ rest) task_id results).1 ≡ none)
      × (task_id ≢ other
          → lookup other (wait (others ∷ rest) task_id results).1 ≡ lookup other results)
unfolding wait
wait_delivers others rest task_id other results r h =
    rw (h, wait)
      (
        refl,
        rw (lookup-remove task_id task_id results, text_eq_refl task_id),
        λ ne. ground (arith, lookup-remove task_id other results, text_eq_iff task_id other),
      )
