-- ===== src/Backends.antt =====
-- `build_storage` of app/storage.py and `build_durable_queue` of app/durable_queue.py: which class the
-- service starts with, and its arguments. The clients that the classes make (boto3, redis) are not
-- made here; of a message, the name that it quotes is left out.
pub mod Agree
pub mod Verify
use distributed_file_service.Prelude.{Option, [], if◌then◌else◌, none, some, ◌++◌, ◌∷◌}
use distributed_file_service.Text.{Text, codes, lower, text_eq}
use distributed_file_service.Exec.{Outcome, ok, raised, unhandled}
use distributed_file_service.Config.{Settings}

-- The arguments of `boto3.client("s3", ...)` and the bucket.
pub record S3Arguments : Type 0 where
  pub bucket : Text
  pub region : Text
  pub endpoint_url : Option Text
  pub credentials : Option (Text × Text)

pub data StorageChoice : Type 0 where
  local_chunk_storage : Text → StorageChoice
  s3_chunk_storage : S3Arguments → StorageChoice

-- `value or None`.
abbrev pub or_none : Text → Option Text
or_none [] = none
or_none (c ∷ s) = some (c ∷ s)

-- `if access_key_id and secret_access_key`.
abbrev pub both : Option Text → Option Text → Option (Text × Text)
both (some a) (some b) = some (a, b)
both (some a) none = none
both none b = none

-- `S3ChunkStorage.__init__`.
unfoldable pub init_s3 :
    Text → Text → Option Text → Option Text → Option Text → Outcome StorageChoice
init_s3 [] region endpoint access secret =
    raised (unhandled "bucket must be set for s3-compatible backends")
init_s3 (c ∷ bucket) region endpoint access secret = ok (
    s3_chunk_storage (record {
      bucket = c ∷ bucket;
      region = region;
      endpoint_url = endpoint;
      credentials = both access secret;
    }))

-- `settings.r2_endpoint_url`, or else the address of the account.
unfoldable pub r2_endpoint : Text → Text → Outcome Text
r2_endpoint (c ∷ url) account = ok (c ∷ url)
r2_endpoint [] [] =
    raised (unhandled "set r2_endpoint_url or r2_account_id when storage_backend=r2")
r2_endpoint [] (c ∷ account) =
    ok (codes "https://" ++ ((c ∷ account) ++ codes ".r2.cloudflarestorage.com"))

abbrev pub init_r2 : Settings → Outcome Text → Outcome StorageChoice
init_r2 c (raised e) = raised e
init_r2 c (ok endpoint) =
    init_s3 c.r2_bucket (codes "auto") (some endpoint) (or_none c.r2_access_key_id)
      (or_none c.r2_secret_access_key)

unfoldable pub build_r2 : Settings → Text → Outcome StorageChoice
build_r2 c [] = raised (unhandled "r2_bucket must be set when storage_backend=r2")
build_r2 c (b ∷ bucket) = init_r2 c (r2_endpoint c.r2_endpoint_url c.r2_account_id)

unfoldable pub build_storage : Settings → Outcome StorageChoice
unfolding lower text_eq
build_storage c =
    if text_eq (lower c.storage_backend) (codes "local")
    then ok (local_chunk_storage c.storage_root)
    else if text_eq (lower c.storage_backend) (codes "s3")
    then init_s3 c.s3_bucket c.aws_region none none none
    else if text_eq (lower c.storage_backend) (codes "r2")
    then build_r2 c c.r2_bucket
    else raised (unhandled "unsupported storage backend")

pub data QueueChoice : Type 0 where
  memory_durable_queue : QueueChoice
  redis_durable_queue : Text → Text → QueueChoice
  sqs_durable_queue : Text → Text → QueueChoice

-- `SQSDurableQueue.__init__`.
unfoldable pub init_sqs : Text → Text → Outcome QueueChoice
init_sqs [] region = raised (unhandled "sqs_queue_url must be set when queue_backend=sqs")
init_sqs (c ∷ url) region = ok (sqs_durable_queue (c ∷ url) region)

unfoldable pub build_durable_queue : Settings → Outcome QueueChoice
unfolding lower text_eq
build_durable_queue c =
    if text_eq (lower c.queue_backend) (codes "memory")
    then ok memory_durable_queue
    else if text_eq (lower c.queue_backend) (codes "redis")
    then ok (redis_durable_queue c.redis_url c.redis_queue_name)
    else if text_eq (lower c.queue_backend) (codes "sqs")
    then init_sqs c.sqs_queue_url c.aws_region
    else raised (unhandled "unsupported queue backend")
