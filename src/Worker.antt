-- ===== src/Worker.antt =====
-- app/worker.py: the executor that refuses work when its queue is full. Each method holds the
-- object's lock, so a method is one step. Of `ThreadPoolExecutor` the model has the worker limit,
-- the number of threads and the semaphore of idle threads.
pub mod Lifecycle
pub mod Overshoot
pub mod Autoscale
pub mod Threads
use Prim.Native.String.{String}
use distributed_file_service.Prelude.{
  [], if◌then◌else◌, leb, ltb, min, ℕ, ◌+◌, ◌-◌, ◌==◌, ◌||◌, ◌∷◌,
}
use distributed_file_service.Exec.{Error, Exec, http, modify, ok, raised, ◌>>◌}

pub record ThreadPool : Type 0 where
  pub max_workers : ℕ
  pub threads : ℕ
  pub idle : ℕ

-- `_adjust_thread_count`: an idle thread is taken, or else a thread is added up to the limit.
unfoldable pub adjust_thread_count : ThreadPool → ThreadPool
adjust_thread_count t =
    if ltb 0 t.idle
    then record t { idle = t.idle - 1 }
    else if ltb t.threads t.max_workers
    then record t { threads = t.threads + 1 }
    else t

pub record Gauges : Type 0 where
  pub task_queue_depth : ℕ
  pub inflight_chunks : ℕ
  pub worker_count : ℕ
  pub worker_busy_count : ℕ
  pub throttled_requests_total : ℕ

pub record BackpressureExecutor : Type 0 where
  pub executor : ThreadPool
  pub queue_maxsize : ℕ
  pub global_inflight_limit : ℕ
  pub queued : ℕ
  pub inflight : ℕ
  pub gauges : Gauges

abbrev pub init : ℕ → ℕ → ℕ → BackpressureExecutor
init workers queue_maxsize global_inflight_limit = record {
  executor = record { max_workers = workers; threads = 0; idle = 0 };
  queue_maxsize = queue_maxsize;
  global_inflight_limit = global_inflight_limit;
  queued = 0;
  inflight = 0;
  gauges = record {
    task_queue_depth = 0;
    inflight_chunks = 0;
    worker_count = workers;
    worker_busy_count = 0;
    throttled_requests_total = 0;
  };
}

abbrev throttled : String → String → Error
throttled detail reason = http (record {
  status_code = 429;
  detail = detail;
  headers = ("Retry-After", "1") ∷ ("X-RateLimit-Reason", reason) ∷ [];
})

abbrev pub queue_full_error : Error
queue_full_error = throttled "task queue is full" "queue_full"

abbrev pub inflight_error : Error
inflight_error = throttled "global inflight chunk limit reached" "global_inflight_limit"

abbrev pub throttle : BackpressureExecutor → BackpressureExecutor
throttle b = record b {
  gauges = record b.gauges { throttled_requests_total = b.gauges.throttled_requests_total + 1 };
}

unfoldable pub try_admit : Exec BackpressureExecutor Unit
try_admit b =
    if leb b.queue_maxsize b.queued
    then (raised queue_full_error, throttle b)
    else if leb b.global_inflight_limit b.inflight
    then (raised inflight_error, throttle b)
    else (
      ok tt,
      record b {
        queued = b.queued + 1;
        gauges = record b.gauges { task_queue_depth = b.queued + 1 };
      },
    )

unfoldable pub on_start : BackpressureExecutor → BackpressureExecutor
on_start b = record b {
  queued = b.queued - 1;
  inflight = b.inflight + 1;
  gauges = record b.gauges {
    task_queue_depth = b.queued - 1;
    inflight_chunks = b.inflight + 1;
    worker_busy_count = min (b.inflight + 1) b.executor.max_workers;
  };
}

unfoldable pub on_end : BackpressureExecutor → BackpressureExecutor
on_end b = record b {
  inflight = b.inflight - 1;
  gauges = record b.gauges {
    inflight_chunks = b.inflight - 1;
    worker_busy_count = min (b.inflight - 1) b.executor.max_workers;
  };
}

-- The part of `submit` on the caller's thread: admission, then `ThreadPoolExecutor.submit`.
unfoldable pub submit : Exec BackpressureExecutor Unit
unfolding try_admit adjust_thread_count
submit = do try_admit; modify (λ b. record b { executor = adjust_thread_count b.executor })

unfoldable pub snapshot : BackpressureExecutor → ℕ × ℕ × ℕ
snapshot b = (b.queued, b.inflight, b.executor.max_workers)

unfoldable pub resize : ℕ → BackpressureExecutor → BackpressureExecutor
unfolding adjust_thread_count
resize workers b = if workers == 0 || workers == b.executor.max_workers then b else record b {
  executor = adjust_thread_count (record b.executor { max_workers = workers });
  gauges = record b.gauges { worker_count = workers; worker_busy_count = min b.inflight workers };
}
