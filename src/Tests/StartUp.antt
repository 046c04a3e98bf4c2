-- ===== src/Tests/StartUp.antt =====
-- What the service starts with, at concrete settings.
use distributed_file_service.Prelude.{false, none, refl, some, ◌≡◌}
use distributed_file_service.Text.{codes, lower, text_eq}
use distributed_file_service.Exec.{ok}
use distributed_file_service.Config.{
  Settings, default_settings, is_s3_compatible, use_external_durable_queue,
}
use distributed_file_service.Backends.{
  QueueChoice, StorageChoice, build_durable_queue, build_r2, build_storage, init_s3, init_sqs,
  r2_endpoint, s3_chunk_storage, sqs_durable_queue,
}
use distributed_file_service.Backends.Agree.{builds-Agree, is_external, is_s3}
use distributed_file_service.Backends.Verify.{
  Environment, verify_main, verify_main-builds, verify_sqs,
}

abbrev cloud : Settings
cloud = record default_settings {
  storage_backend = codes "R2";
  r2_bucket = codes "b";
  r2_account_id = codes "a";
  queue_backend = codes "SQS";
  sqs_queue_url = codes "u";
}

abbrev r2_store : StorageChoice
r2_store = s3_chunk_storage (record {
  bucket = codes "b";
  region = codes "auto";
  endpoint_url = some (codes "https://a.r2.cloudflarestorage.com");
  credentials = none;
})

r2_starts : build_storage cloud ≡ ok r2_store
unfolding build_storage build_r2 r2_endpoint init_s3 lower text_eq
r2_starts = refl

sqs_starts : build_durable_queue cloud ≡ ok (sqs_durable_queue (codes "u") (codes "us-east-1"))
unfolding build_durable_queue init_sqs lower text_eq
sqs_starts = refl

builds-Agree_example :
    (is_s3 r2_store ≡ is_s3_compatible cloud)
    × (is_external (sqs_durable_queue (codes "u") (codes "us-east-1"))
        ≡ use_external_durable_queue cloud)
builds-Agree_example =
    builds-Agree cloud r2_store (sqs_durable_queue (codes "u") (codes "us-east-1")) r2_starts
      sqs_starts

abbrev shell : Environment
shell = record {
  queue_backend = some (codes "SQS");
  sqs_queue_url = some (codes "u");
  aws_region = some (codes "r");
  ping = ok false;
  get_queue_attributes = ok tt;
}

is_verified : verify_main shell ≡ 0
unfolding verify_main verify_sqs lower text_eq
is_verified = refl

verify_main-builds_example : (q : QueueChoice) × (build_durable_queue cloud ≡ ok q)
verify_main-builds_example =
    verify_main-builds shell cloud (record { backend = refl; url = refl }) is_verified
