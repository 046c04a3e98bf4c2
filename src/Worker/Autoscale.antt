-- ===== src/Worker/Autoscale.antt =====
-- `_autoscale_workers_loop` of app/main.py (one round) and the resize at start-up. A threshold is a
-- fraction: the float comparison of the source agrees with it for thresholds of few digits.
use distributed_file_service.Prelude.{
  Bool, arith, if◌then◌else◌, leb, ltb, max, min, ℕ, ◌&&◌, ◌*◌, ◌+◌, ◌-◌, ◌<◌, ◌==◌, ◌↔◌, ◌≡◌, ◌≤◌,
}
use distributed_file_service.Worker.{BackpressureExecutor, resize, snapshot}

pub record Ratio : Type 0 where
  pub num : ℕ
  pub den : ℕ

-- The settings that the loop reads (app/config.py).
pub record AutoscaleSettings : Type 0 where
  pub worker_count : ℕ
  pub min_workers : ℕ
  pub max_workers : ℕ
  pub scale_up_queue_threshold : ℕ
  pub scale_up_utilization_threshold : Ratio
  pub scale_down_utilization_threshold : Ratio

-- `inflight / max(1, current) >= threshold`, and `<=`.
abbrev pub utilization_ge : ℕ → ℕ → Ratio → Bool
utilization_ge inflight current r = leb (r.num * max 1 current) (inflight * r.den)

abbrev pub utilization_le : ℕ → ℕ → Ratio → Bool
utilization_le inflight current r = leb (inflight * r.den) (r.num * max 1 current)

unfoldable pub desired_workers : AutoscaleSettings → ℕ → ℕ → ℕ → ℕ
desired_workers c queued inflight current =
    if leb c.scale_up_queue_threshold queued
      && (utilization_ge inflight current c.scale_up_utilization_threshold
          && ltb current c.max_workers)
    then current + 1
    else if queued == 0
        && (utilization_le inflight current c.scale_down_utilization_threshold
            && ltb c.min_workers current)
    then current - 1
    else current

unfoldable pub autoscale_round : AutoscaleSettings → BackpressureExecutor → BackpressureExecutor
unfolding desired_workers snapshot
autoscale_round c b =
    let (queued, inflight, current) = snapshot b in
    let desired = desired_workers c queued inflight current in
    if desired == current then b else resize desired b

-- At start-up: `executor.resize(max(min_workers, min(worker_count, max_workers)))`.
unfoldable pub autoscale_start : AutoscaleSettings → BackpressureExecutor → BackpressureExecutor
autoscale_start c b = resize (max c.min_workers (min c.worker_count c.max_workers)) b

max_workers-resize :
    (n : ℕ) (b : BackpressureExecutor) → 0 < n → (resize n b).executor.max_workers ≡ n
unfolding resize
max_workers-resize n b h = ground arith

desired_bounds :
    (c : AutoscaleSettings) (queued inflight current : ℕ)
    → c.min_workers ≤ current
    → current ≤ c.max_workers
    → (c.min_workers ≤ desired_workers c queued inflight current)
      × (desired_workers c queued inflight current ≤ c.max_workers)
unfolding desired_workers
desired_bounds c queued inflight current lo hi = ground arith

desired_pos :
    (c : AutoscaleSettings) (queued inflight current : ℕ)
    → 0 < c.min_workers
    → c.min_workers ≤ current
    → 0 < desired_workers c queued inflight current
unfolding desired_workers
desired_pos c queued inflight current pos lo = ground arith

max_workers-round :
    (c : AutoscaleSettings) (b : BackpressureExecutor)
    → 0 < c.min_workers
    → c.min_workers ≤ b.executor.max_workers
    → (autoscale_round c b).executor.max_workers
      ≡ desired_workers c b.queued b.inflight b.executor.max_workers
unfolding autoscale_round
max_workers-round c b pos lo = ground (
  arith,
  max_workers-resize (desired_workers c b.queued b.inflight b.executor.max_workers) b,
  desired_pos c b.queued b.inflight b.executor.max_workers,
)

abbrev pub WantsMore : AutoscaleSettings → ℕ → ℕ → ℕ → Type 0
WantsMore c queued inflight current =
    (c.scale_up_queue_threshold ≤ queued)
    × (c.scale_up_utilization_threshold.num * max 1 current
        ≤ inflight * c.scale_up_utilization_threshold.den)
    × (current < c.max_workers)

abbrev pub WantsFewer : AutoscaleSettings → ℕ → ℕ → ℕ → Type 0
WantsFewer c queued inflight current =
    (queued ≡ 0)
    × (inflight * c.scale_down_utilization_threshold.den
        ≤ c.scale_down_utilization_threshold.num * max 1 current)
    × (c.min_workers < current)

desired_more :
    (c : AutoscaleSettings) (queued inflight current : ℕ)
    → (desired_workers c queued inflight current ≡ current + 1)
      ↔ WantsMore c queued inflight current
unfolding desired_workers
desired_more c queued inflight current = ground arith

desired_fewer :
    (c : AutoscaleSettings) (queued inflight current : ℕ)
    → (desired_workers c queued inflight current + 1 ≡ current)
      ↔ ((¬ WantsMore c queued inflight current) × WantsFewer c queued inflight current)
unfolding desired_workers
desired_fewer c queued inflight current = ground arith

-- One round keeps the worker limit between `min_workers` and `max_workers`, given that it starts
-- there. It goes up by one exactly when the queue and the utilization have reached their upper
-- thresholds and the limit is below `max_workers`; otherwise it goes down by one exactly with an
-- empty queue, a utilization at most the lower threshold and a limit above `min_workers`.
pub autoscale_round_bounds :
    (c : AutoscaleSettings) (b : BackpressureExecutor)
    → 0 < c.min_workers
    → c.min_workers ≤ b.executor.max_workers
    → b.executor.max_workers ≤ c.max_workers
    → let n = (autoscale_round c b).executor.max_workers in
      let current = b.executor.max_workers in
      (c.min_workers ≤ n)
      × (n ≤ c.max_workers)
      × ((n ≡ current + 1) ↔ WantsMore c b.queued b.inflight current)
      × ((n + 1 ≡ current) ↔ (
          (¬ WantsMore c b.queued b.inflight current) × WantsFewer c b.queued b.inflight current))
autoscale_round_bounds c b pos lo hi =
    let d = desired_bounds c b.queued b.inflight b.executor.max_workers lo hi in
    rw (max_workers-round c b pos lo) (
      d.0,
      d.1,
      desired_more c b.queued b.inflight b.executor.max_workers,
      desired_fewer c b.queued b.inflight b.executor.max_workers,
    )

-- The limit set at start-up lies between `min_workers` and `max_workers`, whatever `worker_count`
-- is, given that those two are in order and positive.
pub autoscale_start_bounds :
    (c : AutoscaleSettings) (b : BackpressureExecutor)
    → 0 < c.min_workers
    → c.min_workers ≤ c.max_workers
    → let n = (autoscale_start c b).executor.max_workers in
      (c.min_workers ≤ n) × (n ≤ c.max_workers)
unfolding autoscale_start
autoscale_start_bounds c b pos h =
    ground (arith, max_workers-resize (max c.min_workers (min c.worker_count c.max_workers)) b)
