-- ===== src/Storage/Local.antt =====
-- `LocalChunkStorage`: a file for each object under a root directory. Of the file system the model
-- has the files, by their path from the root; it has no failing disk.
use distributed_file_service.Prelude.{
  Bool, List, Option, [], if◌then◌else◌, is_some, none, some, ℕ, ◌==◌, ◌∷◌,
}
use distributed_file_service.Text.{Bytes, Text, strip_prefix?}
use distributed_file_service.Exec.{Exec, ok, pure, raised, unhandled}
use distributed_file_service.Dict.{Dict, insert, lookup, remove}
use distributed_file_service.Storage.{ChunkStorage, StorageWriteResult, chunk_key}

-- The files under the root.
abbrev pub Files : Type 0
Files = Dict Bytes

unfoldable pub write_chunk : Text → ℕ → Bytes → Option Text → Exec Files StorageWriteResult
write_chunk upload_id index bytes multipart_upload_id files =
    let relative_key = chunk_key upload_id index in
    (ok (record { key = relative_key; etag = none }), insert relative_key bytes files)

unfoldable pub read_chunk : Text → Exec Files Bytes
read_chunk s3_key files = elim (lookup s3_key files) [
  | none ↦ (raised (unhandled "FileNotFoundError"), files)
  | some bytes ↦ (ok bytes, files)
]

-- `Path(prefix)` as a directory: its name with one slash behind it.
unfoldable pub directory : Text → Text
directory [] = []
directory (c ∷ []) = if c == b'/' then c ∷ [] else c ∷ b'/' ∷ []
directory (c ∷ d ∷ p) = c ∷ directory (d ∷ p)

-- The paths below the directory `prefix`, whose name may end in a slash.
unfoldable pub below : Text → Text → Bool
unfolding strip_prefix? directory
below prefix path = is_some (strip_prefix? (directory prefix) path)

unfoldable pub keys_below : Text → Files → List Text
unfolding below
keys_below prefix [] = []
keys_below prefix ((path, bytes) ∷ files) =
    let rest = keys_below prefix files in if below prefix path then path ∷ rest else rest

unfoldable pub list_keys : Text → Exec Files (List Text)
unfolding keys_below
list_keys prefix files = (ok (keys_below prefix files), files)

unfoldable pub delete_key : Text → Exec Files Unit
delete_key key files = (ok tt, remove key files)

-- The class: what it does not override is inherited from `ChunkStorage`.
abbrev pub local_storage : ChunkStorage Files
local_storage = record {
  initialize_upload = λ upload_id. pure none;
  write_chunk = write_chunk;
  complete_upload = λ upload_id multipart_upload_id parts. pure tt;
  read_chunk = read_chunk;
  list_keys = list_keys;
  delete_key = delete_key;
}
