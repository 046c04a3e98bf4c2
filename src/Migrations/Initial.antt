-- ===== src/Migrations/Initial.antt =====
-- alembic/versions/20260218_000001_initial_schema.py.
use distributed_file_service.Prelude.{[], false, ◌∷◌}
use distributed_file_service.Text.{codes}
use distributed_file_service.Exec.{Exec, ◌>>◌}
use distributed_file_service.Migrations.{
  Operations, Table, column, date_time, integer, long_text, on_uploads, string_of,
}

abbrev pub initial_uploads : Table
initial_uploads = record {
  name = codes "uploads";
  columns =
      column (codes "id") (string_of 36) false
      ∷ column (codes "file_name") long_text false
      ∷ column (codes "file_size") integer false
      ∷ column (codes "chunk_size") integer false
      ∷ column (codes "total_chunks") integer false
      ∷ column (codes "status") (string_of 32) false
      ∷ column (codes "created_at") date_time false
      ∷ column (codes "updated_at") date_time false
      ∷ [];
  primary_key = codes "id" ∷ [];
  foreign_keys = [];
  unique_keys = [];
  indexes = [];
}

abbrev pub initial_chunks : Table
initial_chunks = record {
  name = codes "chunks";
  columns =
      column (codes "id") integer false
      ∷ column (codes "upload_id") (string_of 36) false
      ∷ column (codes "chunk_index") integer false
      ∷ column (codes "size_bytes") integer false
      ∷ column (codes "s3_key") long_text false
      ∷ column (codes "status") (string_of 32) false
      ∷ column (codes "retry_count") integer false
      ∷ column (codes "created_at") date_time false
      ∷ column (codes "updated_at") date_time false
      ∷ [];
  primary_key = codes "id" ∷ [];
  foreign_keys = on_uploads ∷ [];
  unique_keys = (codes "upload_id" ∷ codes "chunk_index" ∷ []) ∷ [];
  indexes = [];
}

abbrev pub initial_init_requests : Table
initial_init_requests = record {
  name = codes "init_request_idempotency";
  columns =
      column (codes "idempotency_key") (string_of 128) false
      ∷ column (codes "upload_id") (string_of 36) false
      ∷ column (codes "request_fingerprint") (string_of 64) false
      ∷ column (codes "created_at") date_time false
      ∷ [];
  primary_key = codes "idempotency_key" ∷ [];
  foreign_keys = on_uploads ∷ [];
  unique_keys = (codes "upload_id" ∷ []) ∷ [];
  indexes = [];
}

abbrev pub initial_chunk_requests : Table
initial_chunk_requests = record {
  name = codes "chunk_request_idempotency";
  columns =
      column (codes "id") integer false
      ∷ column (codes "upload_id") (string_of 36) false
      ∷ column (codes "chunk_index") integer false
      ∷ column (codes "idempotency_key") (string_of 128) false
      ∷ column (codes "request_fingerprint") (string_of 64) false
      ∷ column (codes "created_at") date_time false
      ∷ [];
  primary_key = codes "id" ∷ [];
  foreign_keys = on_uploads ∷ [];
  unique_keys = (codes "upload_id" ∷ codes "chunk_index" ∷ codes "idempotency_key" ∷ []) ∷ [];
  indexes = [];
}

abbrev pub initial_complete_requests : Table
initial_complete_requests = record {
  name = codes "complete_request_idempotency";
  columns =
      column (codes "idempotency_key") (string_of 128) false
      ∷ column (codes "upload_id") (string_of 36) false
      ∷ column (codes "request_fingerprint") (string_of 64) false
      ∷ column (codes "created_at") date_time false
      ∷ [];
  primary_key = codes "idempotency_key" ∷ [];
  foreign_keys = on_uploads ∷ [];
  unique_keys = [];
  indexes = [];
}

module _ {S : Type 0} (op : Operations S) where
  unfoldable pub upgrade : Exec S Unit
  upgrade = do
    op.create_table initial_uploads
    op.create_table initial_chunks
    op.create_index (codes "idx_chunks_upload_status") (codes "chunks")
        (codes "upload_id" ∷ codes "status" ∷ [])
    op.create_table initial_init_requests
    op.create_table initial_chunk_requests
    op.create_table initial_complete_requests

  unfoldable pub downgrade : Exec S Unit
  downgrade = do
    op.drop_table (codes "complete_request_idempotency")
    op.drop_table (codes "chunk_request_idempotency")
    op.drop_table (codes "init_request_idempotency")
    op.drop_index (codes "idx_chunks_upload_status") (codes "chunks")
    op.drop_table (codes "chunks")
    op.drop_table (codes "uploads")
