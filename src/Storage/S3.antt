-- ===== src/Storage/S3.antt =====
-- `S3ChunkStorage`: a bucket behind a client. The client (boto3) is a parameter: `Client` is the
-- state of the service, and a call may raise.
pub mod Paging
use distributed_file_service.Prelude.{
  Bool, List, Option, [], if◌then◌else◌, none, some, suc, zero, ℕ, ◌++◌, ◌+◌, ◌∷◌,
}
use distributed_file_service.Text.{Bytes, Text}
use distributed_file_service.Exec.{Error, Exec, pure, raise, unhandled, ◌>>=◌, ◌>>◌}
use distributed_file_service.Storage.{
  ChunkStorage, Part, StorageWriteResult, assembled_key, chunk_key,
}

-- One answer of `list_objects_v2`: `Contents[].Key`, `IsTruncated`, `NextContinuationToken`.
pub record Page : Type 0 where
  pub keys : List (Option Text)
  pub is_truncated : Bool
  pub next_token : Option Text

-- The calls that the class makes, for the bucket that it was made with.
pub record S3Client (Client : Type 0) : Type 0 where
  pub create_multipart_upload : Text → Exec Client Text
  pub put_object : Text → Bytes → Exec Client (Option Text)
  pub upload_part : Text → ℕ → Text → Bytes → Exec Client (Option Text)
  pub complete_multipart_upload : Text → Text → List Part → Exec Client Unit
  pub get_object : Text → Exec Client Bytes
  pub list_objects_v2 : Text → Option Text → Exec Client Page
  pub delete_object : Text → Exec Client Unit

-- `key = item.get("Key")`, kept `if key`.
unfoldable pub item_keys : List (Option Text) → List Text
item_keys [] = []
item_keys (none ∷ items) = item_keys items
item_keys (some [] ∷ items) = item_keys items
item_keys (some (c ∷ k) ∷ items) = (c ∷ k) ∷ item_keys items

abbrev pub truthy_token : Option Text → Option Text
truthy_token none = none
truthy_token (some []) = none
truthy_token (some (c ∷ t)) = some (c ∷ t)

abbrev pub out_of_fuel : Error
out_of_fuel = unhandled "the listing did not end"

module _ {Client : Type 0} (client : S3Client Client) where
  unfoldable pub initialize_upload : Text → Exec Client (Option Text)
  initialize_upload upload_id = do
    id ← client.create_multipart_upload (assembled_key upload_id)
    pure (some id)

  unfoldable pub write_chunk : Text → ℕ → Bytes → Option Text → Exec Client StorageWriteResult
  write_chunk upload_id index bytes none = do
    etag ← client.put_object (chunk_key upload_id index) bytes
    pure (record { key = chunk_key upload_id index; etag = etag })
  write_chunk upload_id index bytes (some []) = do
    etag ← client.put_object (chunk_key upload_id index) bytes
    pure (record { key = chunk_key upload_id index; etag = etag })
  write_chunk upload_id index bytes (some (c ∷ m)) = do
    etag ← client.upload_part (assembled_key upload_id) (index + 1) (c ∷ m) bytes
    client.put_object (chunk_key upload_id index) bytes
    pure (record { key = chunk_key upload_id index; etag = etag })

  unfoldable pub complete_upload : Text → Option Text → List Part → Exec Client Unit
  complete_upload upload_id none parts =
      raise (unhandled "ValueError: multipart_upload_id is required for s3 backend")
  complete_upload upload_id (some []) parts =
      raise (unhandled "ValueError: multipart_upload_id is required for s3 backend")
  complete_upload upload_id (some (c ∷ m)) parts =
      client.complete_multipart_upload (assembled_key upload_id) (c ∷ m) parts

  unfoldable pub read_chunk : Text → Exec Client Bytes
  read_chunk s3_key = client.get_object s3_key

  -- The loop of `list_keys`, with fuel for one page a round; `keys` are those collected before.
  unfoldable pub list_pages : ℕ → Text → Option Text → List Text → Exec Client (List Text)
  unfolding item_keys
  list_pages zero prefix token keys = raise out_of_fuel
  list_pages (suc fuel) prefix token keys = do
    page ← client.list_objects_v2 prefix (truthy_token token)
    let keys' = keys ++ item_keys page.keys
    let rest = list_pages fuel prefix page.next_token keys'
    if page.is_truncated then rest else pure keys'

  unfoldable pub delete_key : Text → Exec Client Unit
  delete_key key = client.delete_object key

  -- The class, with a bound on the pages of a listing.
  abbrev pub s3_storage : ℕ → ChunkStorage Client
  s3_storage pages = record {
    initialize_upload = initialize_upload;
    write_chunk = write_chunk;
    complete_upload = complete_upload;
    read_chunk = read_chunk;
    list_keys = λ prefix. list_pages pages prefix none [];
    delete_key = delete_key;
  }
