-- ===== src/Backends/Agree.antt =====
-- The classes that the service starts with, against the tests of the settings in app/main.py.
use distributed_file_service.Prelude.{
  Bool, Bool-cases, Option, [], arith, false, inl, inr, refl, true, ◌||◌, ◌∷◌, ◌≡◌,
}
use distributed_file_service.Text.{Text, codes, lower, text_eq, text_eq_iff}
use distributed_file_service.Exec.{Outcome, ok, raised}
use distributed_file_service.Config.{Settings, is_s3_compatible, use_external_durable_queue}
use distributed_file_service.Backends.{
  QueueChoice, StorageChoice, build_durable_queue, build_r2, build_storage, init_r2, init_s3,
  init_sqs, local_chunk_storage, memory_durable_queue, r2_endpoint, redis_durable_queue,
  s3_chunk_storage, sqs_durable_queue,
}

abbrev pub is_s3 : StorageChoice → Bool
is_s3 (local_chunk_storage root) = false
is_s3 (s3_chunk_storage a) = true

abbrev pub is_external : QueueChoice → Bool
is_external memory_durable_queue = false
is_external (redis_durable_queue url name) = true
is_external (sqs_durable_queue url region) = true

init_s3-is_s3 :
    (b region : Text) (e k l : Option Text) (s : StorageChoice)
    → init_s3 b region e k l ≡ ok s
    → is_s3 s ≡ true
unfolding init_s3
init_s3-is_s3 [] region e k l s h = absurd (ground (arith, h))
init_s3-is_s3 (c ∷ b) region e k l (local_chunk_storage root) h = absurd (ground (arith, h))
init_s3-is_s3 (c ∷ b) region e k l (s3_chunk_storage a) h = refl

build_r2-is_s3 :
    (c : Settings) (b : Text) (s : StorageChoice) → build_r2 c b ≡ ok s → is_s3 s ≡ true
unfolding build_r2
build_r2-is_s3 c [] s h = absurd (ground (arith, h))
build_r2-is_s3 c (x ∷ b) s h = by_endpoint (r2_endpoint c.r2_endpoint_url c.r2_account_id) h
  where
    by_endpoint : (o : Outcome Text) → init_r2 c o ≡ ok s → is_s3 s ≡ true
    by_endpoint (raised e) h = absurd (ground (arith, h))
    by_endpoint (ok url) h = init_s3-is_s3 c.r2_bucket _ _ _ _ s h

is_local :
    (root : Text) (s : StorageChoice) → ok (local_chunk_storage root) ≡ ok s → is_s3 s ≡ false
is_local root (local_chunk_storage r) h = refl
is_local root (s3_chunk_storage a) h = absurd (ground (arith, h))

is_memory : (q : QueueChoice) → ok memory_durable_queue ≡ ok q → is_external q ≡ false
is_memory memory_durable_queue h = refl
is_memory (redis_durable_queue url name) h = absurd (ground (arith, h))
is_memory (sqs_durable_queue url region) h = absurd (ground (arith, h))

is_redis :
    (a b : Text) (q : QueueChoice) → ok (redis_durable_queue a b) ≡ ok q → is_external q ≡ true
is_redis a b memory_durable_queue h = absurd (ground (arith, h))
is_redis a b (redis_durable_queue url name) h = refl
is_redis a b (sqs_durable_queue url region) h = refl

is_sqs : (a b : Text) (q : QueueChoice) → init_sqs a b ≡ ok q → is_external q ≡ true
unfolding init_sqs
is_sqs [] b q h = absurd (ground (arith, h))
is_sqs (c ∷ a) b memory_durable_queue h = absurd (ground (arith, h))
is_sqs (c ∷ a) b (redis_durable_queue url name) h = refl
is_sqs (c ∷ a) b (sqs_durable_queue url region) h = refl

-- One name is not two others.
is_other :
    (s a b c : Text)
    → text_eq a b ≡ false
    → text_eq a c ≡ false
    → text_eq s a ≡ true
    → (text_eq s b || text_eq s c) ≡ false
is_other s a b c x y h = rw ((text_eq_iff s a).0 h, x, y) refl

build_storage-is_s3 :
    (c : Settings) (s : StorageChoice) → build_storage c ≡ ok s → is_s3 s ≡ is_s3_compatible c
unfolding build_storage is_s3_compatible
build_storage-is_s3 c s h = elim (Bool-cases (text_eq (lower c.storage_backend) (codes "local"))) [
  | inl e ↦
      rw
        (is_other (lower c.storage_backend) (codes "local") (codes "s3") (codes "r2")
          (unfold text_eq in refl) (unfold text_eq in refl) e)
        (is_local c.storage_root s (rw e at h))
  | inr e ↦ elim (Bool-cases (text_eq (lower c.storage_backend) (codes "s3"))) [
    | inl f ↦ rw f (init_s3-is_s3 c.s3_bucket _ _ _ _ s (rw (e, f) at h))
    | inr f ↦ elim (Bool-cases (text_eq (lower c.storage_backend) (codes "r2"))) [
      | inl g ↦ rw (f, g) (build_r2-is_s3 c c.r2_bucket s (rw (e, f, g) at h))
      | inr g ↦ absurd (ground (arith, rw (e, f, g) at h))
    ]
  ]
]

build_durable_queue-is_external :
    (c : Settings) (q : QueueChoice)
    → build_durable_queue c ≡ ok q
    → is_external q ≡ use_external_durable_queue c
unfolding build_durable_queue use_external_durable_queue
build_durable_queue-is_external c q h =
    elim (Bool-cases (text_eq (lower c.queue_backend) (codes "memory"))) [
      | inl e ↦
          rw
            (is_other (lower c.queue_backend) (codes "memory") (codes "redis") (codes "sqs")
              (unfold text_eq in refl) (unfold text_eq in refl) e)
            (is_memory q (rw e at h))
      | inr e ↦ elim (Bool-cases (text_eq (lower c.queue_backend) (codes "redis"))) [
        | inl f ↦ rw f (is_redis _ _ q (rw (e, f) at h))
        | inr f ↦ elim (Bool-cases (text_eq (lower c.queue_backend) (codes "sqs"))) [
          | inl g ↦ rw (f, g) (is_sqs c.sqs_queue_url _ q (rw (e, f, g) at h))
          | inr g ↦ absurd (ground (arith, rw (e, f, g) at h))
        ]
      ]
    ]

-- If the service gets its store and its queue, the handlers' tests of the settings agree with what it
-- got: `is_s3_compatible` holds exactly for the S3 class, and `_use_external_durable_queue` exactly
-- for the Redis and the SQS class.
pub builds-Agree :
    (c : Settings) (s : StorageChoice) (q : QueueChoice)
    → build_storage c ≡ ok s
    → build_durable_queue c ≡ ok q
    → (is_s3 s ≡ is_s3_compatible c) × (is_external q ≡ use_external_durable_queue c)
builds-Agree c s q h k = (build_storage-is_s3 c s h, build_durable_queue-is_external c q k)
