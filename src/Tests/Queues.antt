-- ===== src/Tests/Queues.antt =====
-- The durable queue at a concrete input.
use distributed_file_service.World.{Service}
use distributed_file_service.DurableQueue.{ChunkWriteTask, from_bytes}
use distributed_file_service.Config.{default_settings}
use distributed_file_service.Uploads.Persist.Drain.{
  Drained, consumer_rounds, consumer_rounds-Drained, memory_queue-IsFifo,
}
use distributed_file_service.Prelude.{List, [], none, ◌∷◌}
use distributed_file_service.Text.{codes}
use distributed_file_service.Storage.Local.{Files}
use distributed_file_service.Uploads.Persist.{ChunkWrite}
use distributed_file_service.Uploads.ChunkUpload.{write_of}
use distributed_file_service.Tests.Data.{a_request, alices_upload, local_service, local_world}

abbrev sent : ChunkWrite
sent = write_of alices_upload a_request

-- The queue in memory in the place of the external one.
abbrev external_service : Service Files (List ChunkWriteTask)
external_service = record local_service {
  config = record default_settings { queue_backend = codes "redis" };
}

abbrev sent_task : ChunkWriteTask
sent_task = from_bytes (codes "t") (codes "a") 0 sent.bytes none

-- A task whose bytes are stored, and one whose payload is no Base64.
abbrev two_tasks : List ChunkWriteTask
two_tasks =
    from_bytes (codes "t") (codes "a") 0 (1 ∷ 2 ∷ 3 ∷ []) none
    ∷ record (from_bytes (codes "s") (codes "a") 1 [] none) { data_b64 = codes "?" }
    ∷ []

consumer_rounds-Drained_example :
    Drained external_service
      (λ tasks. tasks)
      memory_queue-IsFifo
      two_tasks
      []
      (consumer_rounds 2 external_service (record local_world { queue = two_tasks })).1
consumer_rounds-Drained_example =
    consumer_rounds-Drained external_service (λ tasks. tasks) memory_queue-IsFifo
      (record local_world { queue = two_tasks })
