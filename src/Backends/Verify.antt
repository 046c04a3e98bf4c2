-- ===== src/Backends/Verify.antt =====
-- scripts/verify_queue_mode.py: the exit code, from the environment and what the checks of the
-- services come to.
use distributed_file_service.Prelude.{
  Bool, Bool-cases, Option, [], arith, false, if◌then◌else◌, inl, inr, none, refl, some, true, ℕ,
  ◌∷◌, ◌≡◌,
}
use distributed_file_service.Text.{Text, codes, lower, text_eq}
use distributed_file_service.Exec.{Outcome, ok, raised, unhandled}
use distributed_file_service.Config.{Settings}
use distributed_file_service.Backends.{
  QueueChoice, build_durable_queue, init_sqs, memory_durable_queue, redis_durable_queue,
  sqs_durable_queue,
}

-- The variables that the script reads, and the checks: the answer of Redis to a ping, and the call
-- of SQS, each with the import of its package; either may raise.
pub record Environment : Type 0 where
  pub queue_backend : Option Text
  pub sqs_queue_url : Option Text
  pub aws_region : Option Text
  pub ping : Outcome Bool
  pub get_queue_attributes : Outcome (Unit {0})

-- `os.getenv(name, default)`.
abbrev pub getenv : Option Text → Text → Text
getenv none default = default
getenv (some s) default = s

abbrev pub verify_redis : Outcome Bool → ℕ
verify_redis (ok true) = 0
verify_redis (ok false) = 1
verify_redis (raised e) = 1

abbrev pub call_sqs : Outcome (Unit {0}) → ℕ
call_sqs (ok t) = 0
call_sqs (raised e) = 1

unfoldable pub verify_sqs : Text → Text → Outcome (Unit {0}) → ℕ
verify_sqs [] region attributes = 1
verify_sqs (c ∷ url) [] attributes = 1
verify_sqs (c ∷ url) (d ∷ region) attributes = call_sqs attributes

unfoldable pub verify_main : Environment → ℕ
unfolding lower text_eq
verify_main e =
    let backend = lower (getenv e.queue_backend (codes "memory")) in
    if text_eq backend (codes "memory")
    then 0
    else if text_eq backend (codes "redis")
    then verify_redis e.ping
    else if text_eq backend (codes "sqs")
    then verify_sqs (getenv e.sqs_queue_url []) (getenv e.aws_region []) e.get_queue_attributes
    else 1

-- The settings that the service reads from the same variables.
pub record Reads (e : Environment) (c : Settings) : Type 0 where
  pub backend : c.queue_backend ≡ getenv e.queue_backend (codes "memory")
  pub url : c.sqs_queue_url ≡ getenv e.sqs_queue_url []

sqs_builds :
    (url region r : Text) (attributes : Outcome (Unit {0}))
    → verify_sqs url region attributes ≡ 0
    → (q : QueueChoice) × (init_sqs url r ≡ ok q)
unfolding verify_sqs init_sqs
sqs_builds [] region r attributes h = absurd (ground (arith, h))
sqs_builds (c ∷ url) region r attributes h = (sqs_durable_queue (c ∷ url) r, refl)

-- If the script ends with exit code 0, the service gets its queue from settings that are read from
-- the same variables.
pub verify_main-builds :
    (e : Environment) (c : Settings)
    → Reads e c
    → verify_main e ≡ 0
    → (q : QueueChoice) × (build_durable_queue c ≡ ok q)
unfolding verify_main build_durable_queue
verify_main-builds e c same h =
    rw same.backend (go (lower (getenv e.queue_backend (codes "memory"))) h)
  where
    go :
        (b : Text)
        → (if text_eq b (codes "memory")
            then 0
            else if text_eq b (codes "redis")
            then verify_redis e.ping
            else if text_eq b (codes "sqs")
            then verify_sqs
                (getenv e.sqs_queue_url [])
                (getenv e.aws_region [])
                e.get_queue_attributes
            else 1)
          ≡ 0
        → (q : QueueChoice) × ((if text_eq b (codes "memory")
              then ok memory_durable_queue
              else if text_eq b (codes "redis")
              then ok (redis_durable_queue c.redis_url c.redis_queue_name)
              else if text_eq b (codes "sqs")
              then init_sqs c.sqs_queue_url c.aws_region
              else raised (unhandled "unsupported queue backend"))
            ≡ ok q)
    go b h = elim (Bool-cases (text_eq b (codes "memory"))) [
      | inl x ↦ (memory_durable_queue, rw x refl)
      | inr x ↦ elim (Bool-cases (text_eq b (codes "redis"))) [
        | inl y ↦ (redis_durable_queue c.redis_url c.redis_queue_name, rw (x, y) refl)
        | inr y ↦ elim (Bool-cases (text_eq b (codes "sqs"))) [
          | inl z ↦
              let (q, f) =
                sqs_builds (getenv e.sqs_queue_url []) (getenv e.aws_region []) c.aws_region
                  e.get_queue_attributes (rw (x, y, z) at h) in
              (q, rw (x, y, z, same.url) f)
          | inr z ↦ absurd (ground (arith, rw (x, y, z) at h))
        ]
      ]
    ]
