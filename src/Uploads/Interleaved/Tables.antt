-- ===== src/Uploads/Interleaved/Tables.antt =====
-- The tables stay sound however requests interleave: what each waiting request has loaded still
-- fits the tables that it will change.
pub mod ChunkSteps
pub mod CompleteSteps
pub mod Runs
use distributed_file_service.Prelude.{
  All, List, [], ap, arith, count, true, ◌<◌, ◌∙◌, ◌∷◌, ◌≡◌, ◌≤◌,
}
use distributed_file_service.Prelude.Int.{pos_part}
use distributed_file_service.Text.{Text}
use distributed_file_service.Models.{Db, Upload, is_initiated, uploaded_of}
use distributed_file_service.Limits
use distributed_file_service.Uploads.ChunkUpload.{ChunkRequest}
use distributed_file_service.Uploads.Sound.{IsSound}
use distributed_file_service.Uploads.Interleaved.Chunks.{
  ChunkPhase, admitted, chunk_answered, holding, looked_up, persisted, reading,
}
use distributed_file_service.Uploads.Interleaved.Completion.{
  CompletePhase, assembled, complete_answered, counted, listed, loaded,
}
use distributed_file_service.Uploads.Interleaved.Systems.{Thread, chunk_thread, complete_thread}
use distributed_file_service.Uploads.Interleaved.Commits.{Found, Grows, Grows-same}

-- A request on a chunk that has loaded `u`.
pub record LoadedChunk (db : Db) (r : ChunkRequest) (u : Upload) : Type 0 where
  pub row : Upload
  pub found : Found r.upload_id row db
  pub same_total : row.total_chunks ≡ u.total_chunks
  pub not_back : is_initiated row.status ≡ true → is_initiated u.status ≡ true
  pub in_range : pos_part r.chunk_index < u.total_chunks

-- A request to complete that has loaded `u`.
pub record LoadedUpload (db : Db) (id : Text) (u : Upload) : Type 0 where
  pub row : Upload
  pub found : Found id row db
  pub same_total : row.total_chunks ≡ u.total_chunks
  pub own : u.id ≡ id

-- It has counted the chunks too.
pub record AllThere (db : Db) (id : Text) (u : Upload) : Type 0 where
  pub load : LoadedUpload db id u
  pub there : u.total_chunks ≤ count (uploaded_of id) db.chunks

abbrev pub PendingChunk : Db → ChunkRequest → ChunkPhase → Type 0
PendingChunk db r (reading u) = LoadedChunk db r u
PendingChunk db r (admitted u) = LoadedChunk db r u
PendingChunk db r (holding u) = LoadedChunk db r u
PendingChunk db r (persisted u s n) = LoadedChunk db r u
PendingChunk db r (looked_up u s n e) = LoadedChunk db r u
PendingChunk db r (chunk_answered o) = Unit

abbrev pub PendingComplete : Db → Text → CompletePhase → Type 0
PendingComplete db id (loaded u) = LoadedUpload db id u
PendingComplete db id (counted u) = AllThere db id u
PendingComplete db id (listed u cs) = AllThere db id u
PendingComplete db id (assembled u) = AllThere db id u
PendingComplete db id (complete_answered o) = Unit

abbrev pub Pending : Db → Thread → Type 0
Pending db (chunk_thread s r phase) = PendingChunk db r phase
Pending db (complete_thread id key phase) = PendingComplete db id phase

LoadedChunk-Grows :
    {a b : Db} (r : ChunkRequest) (u : Upload) → Grows a b → LoadedChunk a r u → LoadedChunk b r u
LoadedChunk-Grows r u g h =
    let (t, e, same, back) = g.kept r.upload_id h.row h.found in
    record {
      row = t;
      found = e;
      same_total = same ∙ h.same_total;
      not_back = λ q. h.not_back (back q);
      in_range = h.in_range;
    }

LoadedUpload-Grows :
    {a b : Db} (id : Text) (u : Upload) → Grows a b → LoadedUpload a id u → LoadedUpload b id u
LoadedUpload-Grows id u g h =
    let (t, e, same, back) = g.kept id h.row h.found in
    record { row = t; found = e; same_total = same ∙ h.same_total; own = h.own }

AllThere-Grows : {a b : Db} (id : Text) (u : Upload) → Grows a b → AllThere a id u → AllThere b id u
AllThere-Grows id u g h = record {
  load = LoadedUpload-Grows id u g h.load;
  there = omega (arith, h.there, g.more id);
}

pub Pending-Grows : {a b : Db} (t : Thread) → Grows a b → Pending a t → Pending b t
Pending-Grows (chunk_thread s r (reading u)) g h = LoadedChunk-Grows r u g h
Pending-Grows (chunk_thread s r (admitted u)) g h = LoadedChunk-Grows r u g h
Pending-Grows (chunk_thread s r (holding u)) g h = LoadedChunk-Grows r u g h
Pending-Grows (chunk_thread s r (persisted u k n)) g h = LoadedChunk-Grows r u g h
Pending-Grows (chunk_thread s r (looked_up u k n e)) g h = LoadedChunk-Grows r u g h
Pending-Grows (chunk_thread s r (chunk_answered o)) g h = tt
Pending-Grows (complete_thread id key (loaded u)) g h = LoadedUpload-Grows id u g h
Pending-Grows (complete_thread id key (counted u)) g h = AllThere-Grows id u g h
Pending-Grows (complete_thread id key (listed u cs)) g h = AllThere-Grows id u g h
Pending-Grows (complete_thread id key (assembled u)) g h = AllThere-Grows id u g h
Pending-Grows (complete_thread id key (complete_answered o)) g h = tt

pub All-Grows : {a b : Db} (ts : List Thread) → Grows a b → All (Pending a) ts → All (Pending b) ts
All-Grows [] g h = tt
All-Grows (t ∷ ts) g h = (Pending-Grows t g h.0, All-Grows ts g h.1)

-- A step from tables that were sound.
pub record Stepped (before after : Db) : Type 0 where
  pub sound : IsSound after
  pub grows : Grows before after

pub Stepped-same : (a b : Db) → b ≡ a → IsSound a → Stepped a b
Stepped-same a b e h = record {
  sound = rw e h;
  grows = Grows-same a b (ap (λ d. d.uploads) e) (ap (λ d. d.chunks) e);
}
