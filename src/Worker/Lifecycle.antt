-- ===== src/Worker/Lifecycle.antt =====
-- The tasks of app/worker.py from submission to their end, in any interleaving: `wrapped` calls
-- `_on_start`, runs the task, and calls `_on_end` in a `finally`, whether the task raised or not.
use distributed_file_service.Prelude.{arith, min, refl, ℕ, ◌+◌, ◌-◌, ◌<◌, ◌∙◌, ◌≡◌, ◌≤◌}
use distributed_file_service.Exec.{Error, ok, raised}
use distributed_file_service.Worker.{
  BackpressureExecutor, inflight_error, init, on_end, on_start, queue_full_error, resize, submit,
  throttle,
}

-- `waiting` counts the tasks in the pool's queue, `running` those on a thread.
pub record System : Type 0 where
  pub pool : BackpressureExecutor
  pub waiting : ℕ
  pub running : ℕ

pub data Step : System → System → Type 0 where
  submits :
      (s : System)
      → (submit s.pool).0 ≡ ok tt
      → Step s (record s { pool = (submit s.pool).1; waiting = s.waiting + 1 })
  refused :
      (s : System) (e : Error)
      → (submit s.pool).0 ≡ raised e
      → Step s (record s { pool = (submit s.pool).1 })
  starts :
      (s : System)
      → 0 < s.waiting
      → s.running < s.pool.executor.threads
      → Step s (record { pool = on_start s.pool; waiting = s.waiting - 1; running = s.running + 1 })
  ends :
      (s : System)
      → 0 < s.running
      → Step s (record s { pool = on_end s.pool; running = s.running - 1 })
  rests :
      (s : System)
      → s.running + s.pool.executor.idle < s.pool.executor.threads
      → Step s (record s {
        pool = record s.pool {
          executor = record s.pool.executor { idle = s.pool.executor.idle + 1 };
        };
      })
  resizes : (s : System) (n : ℕ) → Step s (record s { pool = resize n s.pool })

pub data Reach (s : System) : System → Type 0 where
  here : Reach s s
  next : {t u : System} → Reach s t → Step t u → Reach s u

pub record IsConsistent (s : System) : Type 0 where
  pub queued : s.pool.queued ≡ s.waiting
  pub inflight : s.pool.inflight ≡ s.running
  pub queue_bound : s.waiting ≤ s.pool.queue_maxsize
  pub on_threads : s.running ≤ s.pool.executor.threads
  pub total_bound :
      s.waiting + s.running ≤ s.pool.queue_maxsize + (s.pool.global_inflight_limit - 1)
  pub depth_gauge : s.pool.gauges.task_queue_depth ≡ s.waiting
  pub inflight_gauge : s.pool.gauges.inflight_chunks ≡ s.running
  pub count_gauge : s.pool.gauges.worker_count ≡ s.pool.executor.max_workers
  pub busy_gauge : s.pool.gauges.worker_busy_count ≡ min s.running s.pool.executor.max_workers

-- Every step keeps the counters equal to the tasks they count, the gauges equal to the counters,
-- and the bounds.
pub Step-IsConsistent : {s t : System} → Step s t → IsConsistent s → IsConsistent t
unfolding submit on_start on_end resize
Step-IsConsistent (submits s h) c = ground arith
Step-IsConsistent (refused s e h) c = ground arith
Step-IsConsistent (starts s w r) c = ground arith
Step-IsConsistent (ends s r) c = ground arith
Step-IsConsistent (rests s r) c = ground arith
Step-IsConsistent (resizes s n) c = ground arith

Reach-IsConsistent : {s t : System} → IsConsistent s → Reach s t → IsConsistent t
Reach-IsConsistent c here = c
Reach-IsConsistent c (next r st) = Step-IsConsistent st (Reach-IsConsistent c r)

abbrev pub start : ℕ → ℕ → ℕ → System
start workers maxsize limit = record { pool = init workers maxsize limit; waiting = 0; running = 0 }

start-IsConsistent : (workers maxsize limit : ℕ) → IsConsistent (start workers maxsize limit)
start-IsConsistent workers maxsize limit = ground arith

pub record SameLimits (a b : BackpressureExecutor) : Type 0 where
  pub queue_maxsize : b.queue_maxsize ≡ a.queue_maxsize
  pub global_inflight_limit : b.global_inflight_limit ≡ a.global_inflight_limit

Step-SameLimits : {s t : System} → Step s t → SameLimits s.pool t.pool
unfolding submit on_start on_end resize
Step-SameLimits (submits s h) = ground arith
Step-SameLimits (refused s e h) = ground arith
Step-SameLimits (starts s w r) = ground arith
Step-SameLimits (ends s r) = ground arith
Step-SameLimits (rests s r) = ground arith
Step-SameLimits (resizes s n) = ground arith

pub Reach-SameLimits : {s t : System} → Reach s t → SameLimits s.pool t.pool
Reach-SameLimits here = record { queue_maxsize = refl; global_inflight_limit = refl }
Reach-SameLimits (next r st) =
    let a = Reach-SameLimits r in
    let b = Step-SameLimits st in
    record {
      queue_maxsize = b.queue_maxsize ∙ a.queue_maxsize;
      global_inflight_limit = b.global_inflight_limit ∙ a.global_inflight_limit;
    }

-- In every interleaving of submissions, starts, ends and resizes from a new executor: the queue
-- counter is the number of waiting tasks and at most `queue_maxsize`; the inflight counter is the
-- number of running tasks, at most one to a thread; waiting and running together are at most
-- `queue_maxsize + global_inflight_limit - 1`; and the gauges for the queue, the tasks in flight, the
-- worker limit and the busy workers report the waiting tasks, the running tasks, `_max_workers`, and
-- the smaller of the last two.
pub Reach-bounds :
    (workers maxsize limit : ℕ) {s : System}
    → Reach (start workers maxsize limit) s
    → (s.pool.queued ≡ s.waiting)
      × (s.waiting ≤ maxsize)
      × (s.pool.inflight ≡ s.running)
      × (s.running ≤ s.pool.executor.threads)
      × (s.waiting + s.running ≤ maxsize + (limit - 1))
      × (s.pool.gauges.task_queue_depth ≡ s.waiting)
      × (s.pool.gauges.inflight_chunks ≡ s.running)
      × (s.pool.gauges.worker_count ≡ s.pool.executor.max_workers)
      × (s.pool.gauges.worker_busy_count ≡ min s.running s.pool.executor.max_workers)
Reach-bounds workers maxsize limit r =
    let c = Reach-IsConsistent (start-IsConsistent workers maxsize limit) r in
    let k = Reach-SameLimits r in ground (arith, c, k)

-- A submission is refused with a 429 for a full queue when the queue counter has reached
-- `queue_maxsize`, and else for the limit when the inflight counter has reached it; a refusal counts
-- one throttled request and changes nothing else. Otherwise it is admitted: the queue counter goes
-- up by one, the inflight counter stays, and the pool has at most one thread more and none fewer.
pub submit_decides :
    (b : BackpressureExecutor)
    → (b.queue_maxsize ≤ b.queued → submit b ≡ (raised queue_full_error, throttle b))
      × (b.queued < b.queue_maxsize
          → b.global_inflight_limit ≤ b.inflight
          → submit b ≡ (raised inflight_error, throttle b))
      × (b.queued < b.queue_maxsize
          → b.inflight < b.global_inflight_limit
          → ((submit b).0 ≡ ok tt)
            × ((submit b).1.queued ≡ b.queued + 1)
            × ((submit b).1.inflight ≡ b.inflight)
            × (b.executor.threads ≤ (submit b).1.executor.threads)
            × ((submit b).1.executor.threads ≤ b.executor.threads + 1))
unfolding submit
submit_decides b = (λ h. ground arith, λ h k. ground arith, λ h k. ground arith)
