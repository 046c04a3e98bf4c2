-- ===== src/Uploads/Persist/Drain.antt =====
-- The consumers' rounds on a queue that gives its tasks back in order.
use distributed_file_service.Exec.Cases.{run_cases}
use distributed_file_service.Prelude.{
  All, Bool-cases, List, Option-cases, [], ap, inl, inr, length, none, refl, some, subst, suc, sym,
  zero, ℕ, ◌∙◌, ◌∷◌, ◌≡◌,
}
use distributed_file_service.Text.{Text, text_eq, text_eq_refl}
use distributed_file_service.Dict.{insert, lookup, lookup-insert}
use distributed_file_service.Exec.{
  Error, Exec, Outcome, catch_with, message_of, modify, ok, pure, raised, try_except, unhandled,
  ◌>>=◌, ◌>>◌,
}
use distributed_file_service.DurableQueue.{
  ChunkWriteTask, DurableQueue, QueueMessage, Results, TaskResult, memory_dequeue, memory_queue,
  set_error, set_success, task_data,
}
use distributed_file_service.World.{Service, World}
use distributed_file_service.Uploads.Persist.{
  consumer_round, data_of, in_queue, in_results, persist_chunk, process_queue_message,
  store_message,
}

-- `n` rounds of `_durable_queue_consumer_loop`.
unfoldable pub consumer_rounds : {St Q : Type 0} → ℕ → Service St Q → Exec (World St Q) Unit
consumer_rounds zero v = pure tt
consumer_rounds (suc n) v = do consumer_round v; consumer_rounds n v

-- The task was answered.
abbrev pub HasResult : Text → Results → Type 0
HasResult id results = (r : TaskResult) × (lookup id results ≡ some r)

has-insert : (id : Text) (r : TaskResult) (rs : Results) → HasResult id (insert id r rs)
has-insert id r rs = (r, rw (lookup-insert, text_eq_refl) refl)

has-insert_kept :
    (key id : Text) (r : TaskResult) (rs : Results)
    → HasResult id rs
    → HasResult id (insert key r rs)
has-insert_kept key id r rs (s, e) = elim (Bool-cases (text_eq key id)) [
  | inl k ↦ (r, rw (lookup-insert, k) refl)
  | inr k ↦ (s, rw (lookup-insert, k) e)
]

-- What a queue that nothing else reads does: `holds` are its tasks in order, a dequeue takes the first,
-- and an acknowledgement, which may raise, leaves the tasks that are not taken. A Redis list does so
-- under `rpush` and `blpop`.
pub record IsFifo {Q : Type 0} (queue : DurableQueue Q) (holds : Q → List ChunkWriteTask)
    : Type 0 where
  pub takes :
      (q : Q) (task : ChunkWriteTask) (tasks : List ChunkWriteTask)
      → holds q ≡ task ∷ tasks
      → (receipt : Text) × (q' : Q) × (queue.dequeue q
          ≡ (ok (some (record { receipt = receipt; task = task })), q'))
        × (holds q' ≡ tasks)
  pub acks : (receipt : Text) (q : Q) → holds (queue.ack receipt q).1 ≡ holds q

pub memory_queue-IsFifo : IsFifo memory_queue (λ tasks. tasks)
unfolding memory_dequeue
memory_queue-IsFifo = record {
  takes = λ q task tasks e. (task.task_id, tasks, rw e refl, refl);
  acks = λ receipt q. refl;
}

module _ {St Q : Type 0} (v : Service St Q) (holds : Q → List ChunkWriteTask)
    (fifo : IsFifo v.durable_queue holds) where
  -- One task is taken from the queue and answered; answers that are there stay.
  record Answered (task : ChunkWriteTask) (tasks : List ChunkWriteTask) (before : Results)
      (w : World St Q) : Type 0 where
    rest : holds w.queue ≡ tasks
    answer : HasResult task.task_id w.results
    kept : (id : Text) → HasResult id before → HasResult id w.results

  answered :
      (task : ChunkWriteTask) (tasks : List ChunkWriteTask) (r : TaskResult) (before : Results)
      (w : World St Q)
      → holds w.queue ≡ tasks
      → w.results ≡ insert task.task_id r before
      → Answered task tasks before w
  answered task tasks r before w q e = record {
    rest = q;
    answer = rw e (has-insert task.task_id r before);
    kept = λ id h. rw e (has-insert_kept task.task_id id r before h);
  }

  acked :
      (receipt : Text) (q q' : Q) (o : Outcome Unit)
      → v.durable_queue.ack receipt q ≡ (o, q')
      → holds q' ≡ holds q
  acked receipt q q' o e = ap (λ (p : Outcome Unit × Q). holds p.1) (sym e) ∙ fifo.acks receipt q

  -- The exception is left as the result.
  abbrev failing : QueueMessage → Error → Exec (World St Q) Unit
  failing m e = do
    modify (in_results (set_error m.task.task_id (message_of "" e)))
    try_except (in_queue (v.durable_queue.ack m.receipt)) (λ _. pure tt)

  failing-Answered :
      (m : QueueMessage) (e : Error) (w : World St Q)
      → Answered m.task (holds w.queue) w.results (failing m e w).1
  unfolding set_error
  failing-Answered m e w = elim (run_cases (v.durable_queue.ack m.receipt w.queue)) [
    | inl (t, q, f) ↦
        rw f
          (answered m.task (holds w.queue) _ w.results _ (acked m.receipt w.queue q (ok tt) f) refl)
    | inr (x, q, f) ↦ rw f (
        answered m.task (holds w.queue) _ w.results _ (acked m.receipt w.queue q (raised x) f) refl)
  ]

  -- After a result that was there already.
  failed_again :
      (m : QueueMessage) (e : Error) (r : TaskResult) (before : Results)
      (tasks : List ChunkWriteTask) (w : World St Q)
      → holds w.queue ≡ tasks
      → w.results ≡ insert m.task.task_id r before
      → Answered m.task tasks before (failing m e w).1
  failed_again m e r before tasks w q h =
      let a = failing-Answered m e w in
      record {
        rest = a.rest ∙ q;
        answer = a.answer;
        kept = λ id k. a.kept id (rw h (has-insert_kept m.task.task_id id r before k));
      }

  process-Answered :
      (m : QueueMessage) (w : World St Q)
      → Answered m.task (holds w.queue) w.results (process_queue_message v m w).1
  unfolding process_queue_message store_message data_of persist_chunk set_success
  process-Answered m w = elim (Option-cases (task_data m.task)) [
    | inl e ↦ rw e (failing-Answered m (unhandled "binascii.Error") w)
    | inr (bytes, e) ↦
        rw e
          (elim (run_cases (
            v.storage.write_chunk m.task.upload_id m.task.chunk_index bytes
              m.task.multipart_upload_id w.store)) [
                | inr (x, s, f) ↦ rw f (failing-Answered m x (record w { store = s }))
                | inl (result, s, f) ↦
                    rw f (elim (run_cases (v.durable_queue.ack m.receipt w.queue)) [
                      | inl (t, q, g) ↦ rw g (
                          answered m.task (holds w.queue) _ w.results _
                            (acked m.receipt w.queue q (ok tt) g) refl)
                      | inr (x, q, g) ↦ rw g (
                          failed_again m x _ w.results (holds w.queue) _
                            (acked m.receipt w.queue q (raised x) g) refl)
                    ])
              ])
  ]

  -- The exception of a round is logged.
  swallow : (p : Outcome Unit × World St Q) → catch_with (λ _. pure tt) p ≡ (ok tt, p.1)
  swallow (ok t, w) = refl
  swallow (raised e, w) = refl

  round-Answered :
      (task : ChunkWriteTask) (tasks : List ChunkWriteTask) (w : World St Q)
      → holds w.queue ≡ task ∷ tasks
      → Answered task tasks w.results (consumer_round v w).1
  unfolding consumer_round
  round-Answered task tasks w h =
      let (receipt, q, e, left) = fifo.takes w.queue task tasks h in
      let m : QueueMessage = record { receipt = receipt; task = task } in
      rw (e, swallow (process_queue_message v m (record w { queue = q })))
        (subst
          (λ ts. Answered task ts w.results (process_queue_message v m (record w { queue = q })).1)
          left (process-Answered m (record w { queue = q })))

  next_round :
      (n : ℕ) (w : World St Q)
      → consumer_rounds (suc n) v w ≡ consumer_rounds n v (consumer_round v w).1
  unfolding consumer_rounds consumer_round
  next_round n w =
      rw
        (swallow (
          (in_queue v.durable_queue.dequeue >>= λ message. elim message [
            | none ↦ pure tt
            | some m ↦ process_queue_message v m
          ])
            w))
        refl

  -- Every task was taken and answered, and answers that were there stay.
  abbrev pub Drained : List ChunkWriteTask → Results → World St Q → Type 0
  Drained tasks before w =
      (holds w.queue ≡ [])
      × All (λ t. HasResult t.task_id w.results) tasks
      × ((id : Text) → HasResult id before → HasResult id w.results)

  drains :
      (tasks : List ChunkWriteTask) (w : World St Q)
      → holds w.queue ≡ tasks
      → Drained tasks w.results (consumer_rounds (length tasks) v w).1
  unfolding consumer_rounds
  drains [] w q = (q, tt, λ id h. h)
  drains (t ∷ ts) w q =
      let a = round-Answered t ts w q in
      let (empty, all, kept) = drains ts (consumer_round v w).1 a.rest in
      subst (λ (p : Outcome Unit × World St Q). Drained (t ∷ ts) w.results p.1)
        (sym (next_round (length ts) w))
        (empty, (kept t.task_id a.answer, all), λ id h. kept id (a.kept id h))

  -- With a queue that gives its tasks back first in, first out, as a Redis list does, whatever the
  -- store does and whether acknowledgements raise or not: as many rounds of a consumer as there are
  -- tasks in the queue empty it; then each of those tasks has a result, be it success or failure, and
  -- every task that had a result before still has one.
  pub consumer_rounds-Drained :
      (w : World St Q)
      → Drained (holds w.queue) w.results (consumer_rounds (length (holds w.queue)) v w).1
  consumer_rounds-Drained w = drains (holds w.queue) w refl
