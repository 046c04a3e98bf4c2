-- ===== src/Uploads/Persist/Queued.antt =====
-- A chunk that goes through a durable queue, from the request to its answer.
use distributed_file_service.Prelude.{◌≡◌}
use distributed_file_service.Text.{Text}
use distributed_file_service.Exec.{Outcome, raised}
use distributed_file_service.World.{World}
use distributed_file_service.Uploads.Persist.{wait_timeout}

module _ {St Q : Type 0} where
  -- The answer, and what is left: the task is in the queue, and nothing is stored.
  abbrev pub TimesOut : {A : Type 0} → World St Q → Q → Outcome A × World St Q → Type 0
  TimesOut w q p =
      (p.0 ≡ raised wait_timeout)
      × (p.1.queue ≡ q)
      × (p.1.store ≡ w.store)
      × (p.1.metrics ≡ w.metrics)
