-- ===== src/Config.antt =====
-- app/config.py: the settings that the modelled code reads. Integer settings are taken to be
-- non-negative.
use distributed_file_service.Prelude.{Bool, [], if◌then◌else◌, ltb, max, ℕ, ◌*◌, ◌/◌, ◌||◌}
use distributed_file_service.Text.{Text, codes, lower, text_eq}

pub record Settings : Type 0 where
  pub storage_backend : Text
  pub storage_root : Text
  pub s3_bucket : Text
  pub aws_region : Text
  pub r2_bucket : Text
  pub r2_account_id : Text
  pub r2_access_key_id : Text
  pub r2_secret_access_key : Text
  pub r2_endpoint_url : Text
  pub auth_mode : Text
  pub api_key_mappings : Text
  pub admin_user_ids : Text
  pub api_rate_limit_per_minute : ℕ
  pub jwt_secret : Text
  pub chunk_size_bytes : ℕ
  pub max_retries : ℕ
  pub max_inflight_chunks_per_upload : ℕ
  pub max_fair_inflight_chunks_per_upload : ℕ
  pub max_global_inflight_chunks : ℕ
  pub task_queue_maxsize : ℕ
  pub worker_count : ℕ
  pub queue_backend : Text
  pub queue_consumer_count : ℕ
  pub redis_url : Text
  pub redis_queue_name : Text
  pub sqs_queue_url : Text
  pub stale_upload_ttl_seconds : ℕ
  pub idempotency_ttl_seconds : ℕ

-- The defaults.
abbrev pub default_settings : Settings
default_settings = record {
  storage_backend = codes "local";
  storage_root = codes "./data";
  s3_bucket = [];
  aws_region = codes "us-east-1";
  r2_bucket = [];
  r2_account_id = [];
  r2_access_key_id = [];
  r2_secret_access_key = [];
  r2_endpoint_url = [];
  auth_mode = codes "api_key";
  api_key_mappings = codes "dev-key:dev-user";
  admin_user_ids = codes "dev-user";
  api_rate_limit_per_minute = 0;
  jwt_secret = [];
  chunk_size_bytes = 5 * 1024 * 1024;
  max_retries = 3;
  max_inflight_chunks_per_upload = 8;
  max_fair_inflight_chunks_per_upload = 0;
  max_global_inflight_chunks = 128;
  task_queue_maxsize = 512;
  worker_count = 16;
  queue_backend = codes "memory";
  queue_consumer_count = 4;
  redis_url = codes "redis://localhost:6379/0";
  redis_queue_name = codes "dfs-chunk-tasks";
  sqs_queue_url = [];
  stale_upload_ttl_seconds = 86400;
  idempotency_ttl_seconds = 86400;
}

-- `settings.storage_backend.lower() in ("s3", "r2")`.
unfoldable pub is_s3_compatible : Settings → Bool
unfolding lower text_eq
is_s3_compatible c =
    text_eq (lower c.storage_backend) (codes "s3") || text_eq (lower c.storage_backend) (codes "r2")

-- `_use_external_durable_queue` of app/main.py.
unfoldable pub use_external_durable_queue : Settings → Bool
unfolding lower text_eq
use_external_durable_queue c =
    text_eq (lower c.queue_backend) (codes "redis") || text_eq (lower c.queue_backend) (codes "sqs")

-- `_fair_share_cap` of app/main.py.
unfoldable pub fair_share_cap : Settings → ℕ
fair_share_cap c =
    if ltb 0 c.max_fair_inflight_chunks_per_upload
    then c.max_fair_inflight_chunks_per_upload
    else max 1 (c.worker_count / 2)
