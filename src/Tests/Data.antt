-- ===== src/Tests/Data.antt =====
-- Data of the tests: a service over files and a queue in memory, with the identity in
-- place of SHA-256.
use distributed_file_service.Prelude.{List, [], false, none, ◌∷◌}
use distributed_file_service.Prelude.Int.{pos}
use distributed_file_service.Text.{codes}
use distributed_file_service.Config.{default_settings}
use distributed_file_service.Models.{Db, Upload, empty_db, in_progress, initiated}
use distributed_file_service.Limits
use distributed_file_service.Worker
use distributed_file_service.Storage.Local.{Files, local_storage}
use distributed_file_service.DurableQueue.{ChunkWriteTask, memory_queue}
use distributed_file_service.World.{AuthUser, Service, World}
use distributed_file_service.Uploads.Persist.{Schedule}
use distributed_file_service.Uploads.ChunkUpload.{ChunkRequest, new_chunk, write_of}

abbrev pub Local : Type 0
Local = World Files (List ChunkWriteTask)

abbrev pub local_service : Service Files (List ChunkWriteTask)
local_service = record {
  config = default_settings;
  storage = local_storage;
  durable_queue = memory_queue;
  sha256 = λ bytes. bytes;
}

abbrev pub alice : AuthUser
alice = record { user_id = codes "alice"; api_key = codes "k"; is_admin = false }

abbrev pub bob : AuthUser
bob = record { user_id = codes "bob"; api_key = codes "l"; is_admin = false }

-- An upload of alice, of one chunk.
abbrev pub alices_upload : Upload
alices_upload = record {
  id = codes "a";
  owner_id = codes "alice";
  file_name = codes "f.txt";
  file_size = 3;
  chunk_size = 4;
  total_chunks = 1;
  file_checksum_sha256 = none;
  status = initiated;
  multipart_upload_id = none;
  created_at = 0;
  updated_at = 0;
}

abbrev pub local_world : Local
local_world = record {
  db = record empty_db { uploads = alices_upload ∷ [] };
  session = record empty_db { uploads = alices_upload ∷ [] };
  store = [];
  queue = [];
  results = [];
  limiter = Limits.init 8 none;
  executor = Worker.init 2 4 4;
  now = 7;
  metrics = record {
    retries_total = 0;
    chunk_upload_failures_total = 0;
    chunks_uploaded_total = 0;
    bytes_uploaded_total = 0;
  };
  audit = [];
}

abbrev pub a_schedule : Schedule
a_schedule = record { task_id = λ n. codes "t"; polls = 2 }

abbrev pub a_request : ChunkRequest
a_request = record {
  upload_id = codes "a";
  chunk_index = pos 0;
  body = 1 ∷ 2 ∷ 3 ∷ [];
  content_length = 3;
  chunk_sha256 = none;
  idempotency_key = none;
}

-- All chunks of the upload are there.
abbrev pub ready_db : Db
ready_db = record empty_db {
  uploads = record alices_upload { status = in_progress } ∷ [];
  chunks = new_chunk (write_of alices_upload a_request) (1 ∷ 2 ∷ 3 ∷ []) (codes "k", none) 0 7 ∷ [];
}

abbrev pub ready_world : Local
ready_world = record local_world { db = ready_db; session = ready_db }
