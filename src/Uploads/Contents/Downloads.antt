-- ===== src/Uploads/Contents/Downloads.antt =====
-- A download against the map of the stored bytes.
use distributed_file_service.Storage.{chunk_key}
use distributed_file_service.Prelude.{
  All, List, [], arith, concat, false, find, length, none, refl, some, ℕ, ◌+◌, ◌<◌, ◌∙◌, ◌∷◌, ◌≡◌,
}
use distributed_file_service.Text.{Bytes, Text}
use distributed_file_service.Dict.{lookup}
use distributed_file_service.Exec.{ok}
use distributed_file_service.Config.{Settings, use_external_durable_queue}
use distributed_file_service.Models.{Chunk, Upload, completed, has_id}
use distributed_file_service.DurableQueue.{DurableQueue}
use distributed_file_service.Stream.{slice}
use distributed_file_service.Stream.Slices.{Reads}
use distributed_file_service.Storage.Local.{Files, read_chunk}
use distributed_file_service.World.{AuthUser, World, open_session}
use distributed_file_service.Uploads.Complete.{chunks_of}
use distributed_file_service.Uploads.Download.{DownloadResponse, download, keys_of}
use distributed_file_service.Uploads.Download.Content.{download-whole}
use distributed_file_service.Uploads.Download.Order.{
  Indexed, Listed, chunks_of-Indexed, chunks_of-Listed,
}
use distributed_file_service.Uploads.Sound.{IsSound}
use distributed_file_service.Uploads.Serve.{Call, serve_all}
use distributed_file_service.Uploads.Serve.Invariant.{serve_all-IsSound}
use distributed_file_service.Uploads.Contents.{Contents, IsLinked, contents, on_disk}
use distributed_file_service.Uploads.Contents.Refines.{serve_all-Runs}

-- The bytes of the chunks of an upload from index `a` on, as the map has them.
abbrev pub Gathers : Contents → Text → ℕ → List Bytes → Type 0
Gathers m id a [] = Unit
Gathers m id a (b ∷ bs) = (m id a ≡ some b) × Gathers m id (a + 1) bs

read_chunk-stored :
    (key : Text) (b : Bytes) (files : Files)
    → lookup key files ≡ some b
    → (read_chunk key files).0 ≡ ok b
unfolding read_chunk
read_chunk-stored key b files e = rw (read_chunk, e) refl

gather :
    (chunks : List Chunk) (files : Files) (id : Text) (total a : ℕ) (cs : List Chunk)
    → IsLinked chunks files
    → Indexed a cs
    → All (Listed id total chunks) cs
    → (bs : List Bytes) × (length bs ≡ length cs)
      × Gathers (contents chunks files) id a bs
      × Reads (λ key. (read_chunk key files).0) (keys_of cs) bs
unfolding contents
gather chunks files id total a [] linked h k = ([], refl, tt, tt)
gather chunks files id total a (c ∷ cs) linked h k =
    let (b, e) = linked.stored id c.chunk_index c k.0.found in
    let (bs, len, all, reads) = gather chunks files id total (a + 1) cs linked h.1 k.1 in
    let key : c.s3_key ≡ chunk_key id c.chunk_index = linked.keys id c.chunk_index c k.0.found in
    (
      b ∷ bs,
      omega (arith, len),
      (rw (← h.0, k.0.found, key) e, all),
      (read_chunk-stored c.s3_key b files (rw key e), reads),
    )

module _ {Q : Type 0} (config : Settings) (queue : DurableQueue Q) (sha256 : Bytes → Text) where
  -- A download answers with the first `file_size` bytes of the chunks, as the map has them, from
  -- index 0 to the last that was announced.
  abbrev pub Answers : Text → AuthUser → Upload → World Files Q → Type 0
  Answers id user u w =
      (bs : List Bytes) × (length bs ≡ u.total_chunks)
      × Gathers (contents w.session.chunks w.store) id 0 bs
      × (out : DownloadResponse) × ((download (on_disk config queue sha256) id none user w).0
          ≡ ok out)
      × (concat out.body.blocks ≡ slice 0 u.file_size (concat bs))
      × (out.body.failure ≡ none)

  download-Answers :
      (w : World Files Q) (id : Text) (user : AuthUser) (u : Upload)
      → IsSound w.session
      → IsLinked w.session.chunks w.store
      → find (has_id id) w.session.uploads ≡ some u
      → u.owner_id ≡ user.user_id
      → u.status ≡ completed
      → 0 < u.file_size
      → Answers id user u w
  download-Answers w id user u sound linked found owner done pos =
      let (order, len) = chunks_of-Indexed id w.session u sound found done in
      let (bs, same, all, reads) =
        gather w.session.chunks w.store id u.total_chunks 0 (chunks_of id w.session) linked order
          (chunks_of-Listed id w.session u sound found) in
      let (out, e, status, body, whole) =
        download-whole (on_disk config queue sha256) id user w u bs sound found owner done reads
          pos in
      (bs, same ∙ len, all, out, e, body, whole)

  -- With the worker pool and `LocalChunkStorage`, from sound tables whose rows have their files:
  -- after requests of any users in any order, the owner's download of a completed upload that is not
  -- empty ends without a failure and gives the first `file_size` bytes of the upload's chunks, in
  -- the order of their indexes from 0 to the announced number, each as the map of the stored bytes
  -- has it.
  pub serve_all-Answers :
      (on_pool : use_external_durable_queue config ≡ false) (cs : List Call) (w : World Files Q)
      (id : Text) (user : AuthUser) (u : Upload)
      → IsSound w.db
      → IsLinked w.db.chunks w.store
      → find (has_id id) (serve_all (on_disk config queue sha256) cs w).db.uploads ≡ some u
      → u.owner_id ≡ user.user_id
      → u.status ≡ completed
      → 0 < u.file_size
      → Answers id user u (open_session (serve_all (on_disk config queue sha256) cs w))
  serve_all-Answers on_pool cs w id user u sound linked found owner done pos =
      download-Answers (open_session (serve_all (on_disk config queue sha256) cs w)) id user u
        (serve_all-IsSound (on_disk config queue sha256) cs w sound)
        (serve_all-Runs config queue sha256 on_pool cs w linked).1 found owner done pos
