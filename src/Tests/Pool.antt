-- ===== src/Tests/Pool.antt =====
-- The limiter and the executor at concrete inputs.
use distributed_file_service.Prelude.{[], arith, min, none, refl, some, ◌+◌, ◌↔◌, ◌∷◌, ◌≡◌, ◌≤◌}
use distributed_file_service.Text.{Text, codes, text_eq}
use distributed_file_service.Exec.{ok}
use distributed_file_service.Dict.{insert, lookup, remove}
use distributed_file_service.Limits
use distributed_file_service.Limits.Holders
use distributed_file_service.Worker
use distributed_file_service.Worker.Lifecycle
use distributed_file_service.Worker.Overshoot
use distributed_file_service.Worker.Autoscale
use distributed_file_service.Worker.Threads

abbrev first_upload : Text
first_upload = codes "a"

abbrev second_upload : Text
second_upload = codes "b"

abbrev entered : Text → Holders.System → Holders.System
entered u s = record { limiter = (Limits.acquire u s.limiter).1; holders = u ∷ s.holders }

abbrev empty_system : Holders.System
empty_system = Holders.start 2 (some 2)

abbrev first_entered : Holders.System
first_entered = entered first_upload empty_system

abbrev second_entered : Holders.System
second_entered = entered second_upload first_entered

-- One more request of the first upload has entered and left.
abbrev after_requests : Holders.System
after_requests = record {
  limiter = Limits.release first_upload (entered first_upload second_entered).limiter;
  holders = second_upload ∷ first_upload ∷ [];
}

after_requests-Reach : Holders.Reach empty_system after_requests
unfolding Limits.acquire Limits.release Holders.leave Holders.held lookup text_eq insert remove
after_requests-Reach =
    Holders.next
      (Holders.next
        (Holders.next (Holders.next Holders.here (Holders.enters empty_system first_upload refl))
          (Holders.enters first_entered second_upload refl))
        (Holders.enters second_entered first_upload refl))
      (Holders.leaves (entered first_upload second_entered) first_upload (omega arith))

Reach-held-le-cap_example :
    (Holders.held first_upload after_requests.holders ≤ 2)
    × (Limits.current after_requests.limiter first_upload
        ≡ Holders.held first_upload after_requests.holders)
    × (Holders.held first_upload after_requests.holders ≡ 0
        → lookup first_upload after_requests.limiter.counts ≡ none)
Reach-held-le-cap_example = Holders.Reach-held-le-cap 2 (some 2) first_upload after_requests-Reach

-- One request of the upload is in flight; the fair share is one.
abbrev busy_limiter : Limits.Limiter
busy_limiter = record {
  limit = 3;
  fair_share_limit = some 1;
  counts = (first_upload, 1) ∷ [];
  throttled_requests_total = 0;
}

acquire_second : (Limits.acquire second_upload busy_limiter).0 ≡ ok tt
unfolding Limits.acquire lookup text_eq
acquire_second = refl

-- Two tasks are submitted to an executor with two workers, and one starts.
abbrev one_of_two : Lifecycle.System
one_of_two = record {
  pool = Worker.on_start (Worker.submit (Worker.submit (Worker.init 2 4 3)).1).1;
  waiting = 1;
  running = 1;
}

one_of_two-Reach : Lifecycle.Reach (Lifecycle.start 2 4 3) one_of_two
unfolding Worker.submit Worker.on_start Worker.try_admit Worker.adjust_thread_count
one_of_two-Reach =
    Lifecycle.next
      (Lifecycle.next (Lifecycle.next Lifecycle.here (Lifecycle.submits _ refl))
        (Lifecycle.submits _ refl))
      (Lifecycle.starts _ (omega arith) (omega arith))

Reach-bounds_example :
    (one_of_two.pool.queued ≡ 1)
    × (1 ≤ 4)
    × (one_of_two.pool.inflight ≡ 1)
    × (1 ≤ one_of_two.pool.executor.threads)
    × (2 ≤ 6)
    × (one_of_two.pool.gauges.task_queue_depth ≡ 1)
    × (one_of_two.pool.gauges.inflight_chunks ≡ 1)
    × (one_of_two.pool.gauges.worker_count ≡ one_of_two.pool.executor.max_workers)
    × (one_of_two.pool.gauges.worker_busy_count ≡ min 1 one_of_two.pool.executor.max_workers)
Reach-bounds_example = Lifecycle.Reach-bounds 2 4 3 one_of_two-Reach

-- The queue of this executor is full.
abbrev full_pool : Worker.BackpressureExecutor
full_pool = record (Worker.init 1 2 3) { queued = 2 }

inflight_overshoot_example :
    (s : Lifecycle.System) × Lifecycle.Reach (Lifecycle.start 5 8 2) s
    × (s.pool.inflight ≡ 5)
    × (s.pool.global_inflight_limit ≡ 2)
inflight_overshoot_example =
    Overshoot.inflight_overshoot 5 8 2 5 (omega arith) (omega arith) (omega arith)

abbrev scaling : Autoscale.AutoscaleSettings
scaling = record {
  worker_count = 16;
  min_workers = 2;
  max_workers = 4;
  scale_up_queue_threshold = 3;
  scale_up_utilization_threshold = record { num = 8; den = 10 };
  scale_down_utilization_threshold = record { num = 3; den = 10 };
}

-- Three tasks wait, and both workers are busy.
abbrev loaded_pool : Worker.BackpressureExecutor
loaded_pool = record (Worker.init 2 8 8) { queued = 3; inflight = 2 }

autoscale_round_bounds_example :
    let n = (Autoscale.autoscale_round scaling loaded_pool).executor.max_workers in
    (2 ≤ n)
    × (n ≤ 4)
    × ((n ≡ 3) ↔ Autoscale.WantsMore scaling 3 2 2)
    × ((n + 1 ≡ 2) ↔ ((¬ Autoscale.WantsMore scaling 3 2 2) × Autoscale.WantsFewer scaling 3 2 2))
autoscale_round_bounds_example =
    Autoscale.autoscale_round_bounds scaling loaded_pool (omega arith) (omega arith) (omega arith)

-- Two threads, and a limit of one from now on.
resize_ends_no_thread_example :
    ((Worker.resize 1 one_of_two.pool).executor.max_workers ≡ 1)
    × ((Worker.resize 1 one_of_two.pool).gauges.worker_count ≡ 1)
    × ((Worker.resize 1 one_of_two.pool).executor.threads ≡ one_of_two.pool.executor.threads)
    × (one_of_two.pool.executor.threads ≤ (Worker.resize 1 one_of_two.pool).executor.threads)
unfolding Worker.submit Worker.on_start Worker.try_admit Worker.adjust_thread_count
resize_ends_no_thread_example =
    Threads.resize_ends_no_thread 1 one_of_two refl (omega arith) (omega arith) Lifecycle.here
