-- ===== src/Worker/Overshoot.antt =====
-- What the limit on tasks in flight of app/worker.py does not prevent: it is read at admission, and
-- tasks admitted before may all start later.
use distributed_file_service.Prelude.{arith, suc, zero, ℕ, ◌+◌, ◌-◌, ◌<◌, ◌≡◌, ◌≤◌}
use distributed_file_service.Exec.{ok}
use distributed_file_service.Worker.{on_start, submit}
use distributed_file_service.Worker.Lifecycle.{Reach, System, here, next, start, starts, submits}

module _ (workers maxsize limit : ℕ) (room : 0 < limit) where
  -- After `n` submissions, `n` tasks wait and each has a thread.
  record IsFilled (n : ℕ) (s : System) : Type 0 where
    queued : s.pool.queued ≡ n
    waiting : s.waiting ≡ n
    inflight : s.pool.inflight ≡ 0
    running : s.running ≡ 0
    threads : s.pool.executor.threads ≡ n
    idle : s.pool.executor.idle ≡ 0
    workers_kept : s.pool.executor.max_workers ≡ workers
    maxsize_kept : s.pool.queue_maxsize ≡ maxsize
    limit_kept : s.pool.global_inflight_limit ≡ limit

  after_submit : System → System
  after_submit s = record s { pool = (submit s.pool).1; waiting = s.waiting + 1 }

  submit_ok : {n : ℕ} {s : System} → n < maxsize → IsFilled n s → (submit s.pool).0 ≡ ok tt
  unfolding submit
  submit_ok h f = ground arith

  submit-IsFilled :
      {n : ℕ} {s : System}
      → n < maxsize
      → n < workers
      → IsFilled n s
      → IsFilled (suc n) (after_submit s)
  unfolding submit after_submit
  submit-IsFilled h k f = ground arith

  fill :
      (n : ℕ)
      → n ≤ maxsize
      → n ≤ workers
      → (s : System) × Reach (start workers maxsize limit) s × IsFilled n s
  unfolding after_submit
  fill zero h k = (start workers maxsize limit, here, ground arith)
  fill (suc n) h k =
      let (s, r, f) = fill n (omega arith) (omega arith) in
      (
        after_submit s,
        next r (submits s (submit_ok (omega arith) f)),
        submit-IsFilled (omega arith) (omega arith) f,
      )

  -- After `k` of them have started.
  record IsRunning (n k : ℕ) (s : System) : Type 0 where
    waiting : s.waiting + k ≡ n
    running : s.running ≡ k
    inflight : s.pool.inflight ≡ k
    threads : s.pool.executor.threads ≡ n
    limit_kept : s.pool.global_inflight_limit ≡ limit

  start_all :
      (n k : ℕ) {s : System} → IsFilled n s → k ≤ n → (t : System) × Reach s t × IsRunning n k t
  unfolding on_start
  start_all n zero {s} f h = (s, here, ground arith)
  start_all n (suc k) f h =
      let (t, r, i) = start_all n k f (omega arith) in
      (
        record { pool = on_start t.pool; waiting = t.waiting - 1; running = t.running + 1 },
        next r (starts t (omega arith) (omega arith)),
        ground arith,
      )

Reach-trans : {s t u : System} → Reach s t → Reach t u → Reach s u
Reach-trans r here = r
Reach-trans r (next q st) = next (Reach-trans r q) st

-- Whatever the limit on tasks in flight, if it is not 0, every number of tasks up to the queue's
-- size and the number of workers can be in flight at once: the counter goes past the limit by
-- any amount that those two allow.
pub inflight_overshoot :
    (workers maxsize limit n : ℕ)
    → 0 < limit
    → n ≤ maxsize
    → n ≤ workers
    → (s : System) × Reach (start workers maxsize limit) s
      × (s.pool.inflight ≡ n)
      × (s.pool.global_inflight_limit ≡ limit)
inflight_overshoot workers maxsize limit n room h k =
    let (s, r, f) = fill workers maxsize limit room n h k in
    let (t, q, i) = start_all workers maxsize limit room n n f (omega arith) in
    (t, Reach-trans r q, i.inflight, i.limit_kept)
