-- ===== src/Uploads/Interleaved/Systems.antt =====
-- The shared state with all requests on chunks and on completion that wait, and what can happen
-- next. The handlers that do not wait are one step each.
use distributed_file_service.Prelude.{List, Option, [], suc, zero, ℕ, ◌∷◌}
use distributed_file_service.Text.{Text}
use distributed_file_service.World.{AuthUser, Service, World, open_session}
use distributed_file_service.Uploads.Persist.{Schedule}
use distributed_file_service.Uploads.ChunkUpload.{ChunkRequest}
use distributed_file_service.Uploads.Serve.{Request, handle}
use distributed_file_service.Uploads.Interleaved.Chunks.{
  ChunkPhase, advance_chunk, load_for_chunk, target_phase,
}
use distributed_file_service.Uploads.Interleaved.Completion.{
  CompletePhase, advance_complete, complete_phase, load_for_complete,
}

pub data Thread : Type 0 where
  chunk_thread : Schedule → ChunkRequest → ChunkPhase → Thread
  complete_thread : Text → Option Text → CompletePhase → Thread

pub record System (St Q : Type 0) : Type 0 where
  pub world : World St Q
  pub threads : List Thread

-- A request comes in and loads its upload, or is answered at once; or a request
-- goes one step on; or the clock moves.
pub data Event : Type 0 where
  chunk_comes : Schedule → ChunkRequest → AuthUser → Event
  complete_comes : Text → Option Text → AuthUser → Event
  other_comes : Request → AuthUser → Event
  advances : ℕ → Event
  clock_shows : ℕ → Event

module _ {St Q : Type 0} where
  unfoldable pub advance_thread : Service St Q → Thread → World St Q → Thread × World St Q
  advance_thread v (chunk_thread schedule r phase) w =
      let (phase', w') = advance_chunk v schedule r phase w in (chunk_thread schedule r phase', w')
  advance_thread v (complete_thread id key phase) w =
      let (phase', w') = advance_complete v id key phase w in (complete_thread id key phase', w')

  unfoldable pub advance_at : Service St Q → ℕ → List Thread → World St Q → List Thread × World St Q
  advance_at v n [] w = ([], w)
  advance_at v zero (t ∷ ts) w = let (t', w') = advance_thread v t w in (t' ∷ ts, w')
  advance_at v (suc n) (t ∷ ts) w = let (ts', w') = advance_at v n ts w in (t ∷ ts', w')

  unfoldable pub step : Service St Q → Event → System St Q → System St Q
  step v (chunk_comes schedule r user) s =
      let (o, w) = load_for_chunk r user (open_session s.world) in
      record { world = w; threads = chunk_thread schedule r (target_phase o) ∷ s.threads }
  step v (complete_comes id key user) s =
      let (o, w) = load_for_complete v id key user (open_session s.world) in
      record { world = w; threads = complete_thread id key (complete_phase o) ∷ s.threads }
  step v (other_comes request user) s = record s {
    world = handle v user request (open_session s.world);
  }
  step v (advances n) s =
      let (ts, w) = advance_at v n s.threads s.world in record { world = w; threads = ts }
  step v (clock_shows time) s = record s { world = record s.world { now = time } }

  unfoldable pub run : Service St Q → List Event → System St Q → System St Q
  run v [] s = s
  run v (e ∷ es) s = run v es (step v e s)
