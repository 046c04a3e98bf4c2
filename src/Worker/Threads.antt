-- ===== src/Worker/Threads.antt =====
-- Threads of the pool of app/worker.py under resizing: `_adjust_thread_count` adds threads and never
-- ends one.
use distributed_file_service.Prelude.{arith, ℕ, ◌<◌, ◌≡◌, ◌≤◌}
use distributed_file_service.Worker.{BackpressureExecutor, on_end, on_start, resize, submit}
use distributed_file_service.Worker.Lifecycle.{
  Reach, Step, System, ends, here, next, refused, resizes, rests, starts, submits,
}

threads-submit : (b : BackpressureExecutor) → b.executor.threads ≤ (submit b).1.executor.threads
unfolding submit
threads-submit b = ground arith

threads-resize :
    (n : ℕ) (b : BackpressureExecutor) → b.executor.threads ≤ (resize n b).executor.threads
unfolding resize
threads-resize n b = ground arith

threads-Step : {s t : System} → Step s t → s.pool.executor.threads ≤ t.pool.executor.threads
unfolding on_start on_end
threads-Step (submits s h) = threads-submit s.pool
threads-Step (refused s e h) = threads-submit s.pool
threads-Step (starts s w r) = omega arith
threads-Step (ends s r) = omega arith
threads-Step (rests s r) = omega arith
threads-Step (resizes s n) = threads-resize n s.pool

threads-Reach : {s t : System} → Reach s t → s.pool.executor.threads ≤ t.pool.executor.threads
threads-Reach here = omega arith
threads-Reach (next r st) = omega (arith, threads-Reach r, threads-Step st)

-- If the gauge of the worker count reports the worker limit: a resize to fewer workers than there are
-- threads sets both, and ends no thread, then or in any later step.
pub resize_ends_no_thread :
    (n : ℕ) (s : System) {t : System}
    → s.pool.gauges.worker_count ≡ s.pool.executor.max_workers
    → 0 < n
    → n < s.pool.executor.threads
    → Reach (record s { pool = resize n s.pool }) t
    → ((resize n s.pool).executor.max_workers ≡ n)
      × ((resize n s.pool).gauges.worker_count ≡ n)
      × ((resize n s.pool).executor.threads ≡ s.pool.executor.threads)
      × (s.pool.executor.threads ≤ t.pool.executor.threads)
unfolding resize
resize_ends_no_thread n s g pos h r = ground (arith, threads-Reach r)
