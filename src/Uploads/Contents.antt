-- ===== src/Uploads/Contents.antt =====
-- What the service stores, as a map from an upload and an index to bytes: the rows of chunks and the
-- files of `LocalChunkStorage` are how it is kept, with the worker pool writing.
pub mod Rows
pub mod Pool
pub mod Local
pub mod Changes
pub mod Others
pub mod Refines
pub mod Downloads
use distributed_file_service.Prelude.{
  List, Option, [], find, if◌then◌else◌, none, some, ℕ, ◌&&◌, ◌==◌, ◌∷◌, ◌≡◌, ◌⊎◌,
}
use distributed_file_service.Prelude.Int.{pos_part}
use distributed_file_service.Text.{Bytes, Text, text_eq}
use distributed_file_service.Dict.{lookup}
use distributed_file_service.Config.{Settings}
use distributed_file_service.Models.{Chunk, is_chunk}
use distributed_file_service.Storage.{chunk_key}
use distributed_file_service.Storage.Local.{Files, local_storage}
use distributed_file_service.DurableQueue.{DurableQueue}
use distributed_file_service.World.{Service}
use distributed_file_service.Uploads.Serve.{Call, Request, chunk, complete, fetch, init, missing}

-- The abstract view: the bytes of each chunk of each upload.
abbrev pub Contents : Type 0
Contents = Text → ℕ → Option Bytes

abbrev pub bytes_of : Option Chunk → Files → Option Bytes
bytes_of none files = none
bytes_of (some c) files = lookup c.s3_key files

unfoldable pub contents : List Chunk → Files → Contents
contents chunks files id index = bytes_of (find (is_chunk id index) chunks) files

-- The service with the local store; the queue is there and not used.
abbrev pub on_disk : {Q : Type 0} → Settings → DurableQueue Q → (Bytes → Text) → Service Files Q
on_disk config queue sha256 = record {
  config = config;
  storage = local_storage;
  durable_queue = queue;
  sha256 = sha256;
}

-- Each row has the key of its chunk, and there is a file under it.
pub record IsLinked (chunks : List Chunk) (files : Files) : Type 0 where
  pub keys :
      (id : Text) (index : ℕ) (c : Chunk)
      → find (is_chunk id index) chunks ≡ some c
      → c.s3_key ≡ chunk_key id index
  pub stored :
      (id : Text) (index : ℕ) (c : Chunk)
      → find (is_chunk id index) chunks ≡ some c
      → (b : Bytes) × (lookup (chunk_key id index) files ≡ some b)

-- `m` with other bytes for one chunk.
unfoldable pub put_at : Text → ℕ → Bytes → Contents → Contents
put_at upload_id chunk_index body m id index =
    if text_eq upload_id id && chunk_index == index then some body else m id index

abbrev pub SameContents : Contents → Contents → Type 0
SameContents m n = (id : Text) (index : ℕ) → n id index ≡ m id index

-- What a request may do to the map: a request on a chunk leaves it, or puts its body in the place of
-- that chunk; every other request leaves it.
abbrev pub Allows : Request → Contents → Contents → Type 0
Allows (chunk schedule r) m n =
    SameContents m n ⊎ SameContents (put_at r.upload_id (pos_part r.chunk_index) r.body m) n
Allows (init id payload key) m n = SameContents m n
Allows (complete id key) m n = SameContents m n
Allows (missing id) m n = SameContents m n
Allows (fetch id range) m n = SameContents m n

-- The runs of the map under a list of requests.
pub data Runs : List Call → Contents → Contents → Type 0 where
  ends : (m : Contents) → Runs [] m m
  goes :
      {m n o : Contents} {c : Call} {cs : List Call}
      → Allows c.request m n
      → Runs cs n o
      → Runs (c ∷ cs) m o
