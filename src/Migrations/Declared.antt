-- ===== src/Migrations/Declared.antt =====
-- The tables that app/models.py declares.
use distributed_file_service.Prelude.{
  Bool, List, Option, [], any, false, if◌then◌else◌, length, map, none, not, some, true, ◌&&◌, ◌==◌,
  ◌∷◌, ◌≡◌,
}
use distributed_file_service.Text.{Text, codes, text_eq}
use distributed_file_service.Migrations.{
  Column, ColumnType, Table, column, date_time, integer, long_text, on_uploads, string_of,
}

abbrev pub declared_uploads : Table
declared_uploads = record {
  name = codes "uploads";
  columns =
      column (codes "id") (string_of 36) false
      ∷ column (codes "owner_id") (string_of 128) false
      ∷ column (codes "file_name") long_text false
      ∷ column (codes "file_size") integer false
      ∷ column (codes "chunk_size") integer false
      ∷ column (codes "total_chunks") integer false
      ∷ column (codes "file_checksum_sha256") (string_of 64) true
      ∷ column (codes "status") (string_of 32) false
      ∷ column (codes "multipart_upload_id") long_text true
      ∷ column (codes "created_at") date_time false
      ∷ column (codes "updated_at") date_time false
      ∷ [];
  primary_key = codes "id" ∷ [];
  foreign_keys = [];
  unique_keys = [];
  indexes = [];
}

abbrev pub declared_chunks : Table
declared_chunks = record {
  name = codes "chunks";
  columns =
      column (codes "id") integer false
      ∷ column (codes "upload_id") (string_of 36) false
      ∷ column (codes "chunk_index") integer false
      ∷ column (codes "size_bytes") integer false
      ∷ column (codes "chunk_checksum_sha256") (string_of 64) true
      ∷ column (codes "s3_key") long_text false
      ∷ column (codes "s3_etag") long_text true
      ∷ column (codes "status") (string_of 32) false
      ∷ column (codes "retry_count") integer false
      ∷ column (codes "created_at") date_time false
      ∷ column (codes "updated_at") date_time false
      ∷ [];
  primary_key = codes "id" ∷ [];
  foreign_keys = on_uploads ∷ [];
  unique_keys = (codes "upload_id" ∷ codes "chunk_index" ∷ []) ∷ [];
  indexes = (codes "idx_chunks_upload_status", codes "upload_id" ∷ codes "status" ∷ []) ∷ [];
}

abbrev pub declared_init_requests : Table
declared_init_requests = record {
  name = codes "init_request_idempotency";
  columns =
      column (codes "idempotency_key") (string_of 128) false
      ∷ column (codes "upload_id") (string_of 36) false
      ∷ column (codes "request_fingerprint") (string_of 64) false
      ∷ column (codes "created_at") date_time false
      ∷ [];
  primary_key = codes "idempotency_key" ∷ [];
  foreign_keys = on_uploads ∷ [];
  unique_keys = (codes "upload_id" ∷ []) ∷ [];
  indexes = [];
}

abbrev pub declared_chunk_requests : Table
declared_chunk_requests = record {
  name = codes "chunk_request_idempotency";
  columns =
      column (codes "id") integer false
      ∷ column (codes "upload_id") (string_of 36) false
      ∷ column (codes "chunk_index") integer false
      ∷ column (codes "idempotency_key") (string_of 128) false
      ∷ column (codes "request_fingerprint") (string_of 64) false
      ∷ column (codes "created_at") date_time false
      ∷ [];
  primary_key = codes "id" ∷ [];
  foreign_keys = on_uploads ∷ [];
  unique_keys = (codes "upload_id" ∷ codes "chunk_index" ∷ codes "idempotency_key" ∷ []) ∷ [];
  indexes = [];
}

abbrev pub declared_complete_requests : Table
declared_complete_requests = record {
  name = codes "complete_request_idempotency";
  columns =
      column (codes "idempotency_key") (string_of 128) false
      ∷ column (codes "upload_id") (string_of 36) false
      ∷ column (codes "request_fingerprint") (string_of 64) false
      ∷ column (codes "created_at") date_time false
      ∷ [];
  primary_key = codes "idempotency_key" ∷ [];
  foreign_keys = on_uploads ∷ [];
  unique_keys = [];
  indexes = [];
}

-- The tables of the metadata, the newest one first as in a description.
abbrev pub declared : List Table
declared =
    declared_complete_requests ∷ declared_chunk_requests ∷ declared_init_requests ∷ declared_chunks
    ∷ declared_uploads ∷ []

-- The declared tables, but `owner_id` with the default "legacy", which the models do not declare.
abbrev pub owner_with_default : Column → Column
owner_with_default c =
    if text_eq c.name (codes "owner_id")
    then record c { server_default = some (codes "legacy") }
    else c

abbrev pub declared_with_default : List Table
declared_with_default =
    declared_complete_requests
    ∷ declared_chunk_requests
    ∷ declared_init_requests
    ∷ declared_chunks
    ∷ record declared_uploads { columns = map owner_with_default declared_uploads.columns }
    ∷ []

unfoldable pub type_eq : ColumnType → ColumnType → Bool
type_eq (string_of n) (string_of m) = n == m
type_eq long_text long_text = true
type_eq integer integer = true
type_eq date_time date_time = true
type_eq _ _ = false

unfoldable pub bool_eq : Bool → Bool → Bool
bool_eq true b = b
bool_eq false b = not b

-- The same default of the server, or none for both.
unfoldable pub default_eq : Option Text → Option Text → Bool
unfolding text_eq
default_eq none none = true
default_eq (some a) (some b) = text_eq a b
default_eq none (some b) = false
default_eq (some a) none = false

-- The same name, type, nullability and default of the server.
unfoldable pub same_column : Column → Column → Bool
unfolding type_eq bool_eq default_eq
same_column a b =
    text_eq a.name b.name
    && (type_eq a.type b.type
        && (bool_eq a.nullable b.nullable && default_eq a.server_default b.server_default))

-- Every column of the first list is in the second.
unfoldable pub columns_within : List Column → List Column → Bool
unfolding any same_column
columns_within [] ds = true
columns_within (c ∷ cs) ds = any (same_column c) ds && columns_within cs ds

-- The same table but for the order of its columns.
pub record Agrees (a b : Table) : Type 0 where
  pub same_name : a.name ≡ b.name
  pub same_number : length a.columns ≡ length b.columns
  pub within : columns_within a.columns b.columns ≡ true
  pub covers : columns_within b.columns a.columns ≡ true
  pub same_primary_key : a.primary_key ≡ b.primary_key
  pub same_foreign_keys : a.foreign_keys ≡ b.foreign_keys
  pub same_unique_keys : a.unique_keys ≡ b.unique_keys
  pub same_indexes : a.indexes ≡ b.indexes

abbrev pub AllAgree : List Table → List Table → Type 0
AllAgree [] [] = Unit
AllAgree [] (b ∷ bs) = true ≡ false
AllAgree (a ∷ rest) [] = true ≡ false
AllAgree (a ∷ rest) (b ∷ bs) = Agrees a b × AllAgree rest bs
