-- ===== src/Migrations/Later.antt =====
-- The migrations 000002 to 000004 of alembic/versions.
use distributed_file_service.Prelude.{List, any, false, if◌then◌else◌, some, true}
use distributed_file_service.Text.{Text, codes, text_eq}
use distributed_file_service.Exec.{Exec, pure, ◌>>=◌, ◌>>◌}
use distributed_file_service.Migrations.{Column, Operations, column, long_text, string_of}

abbrev pub multipart_column : Column
multipart_column = column (codes "multipart_upload_id") long_text true

abbrev pub etag_column : Column
etag_column = column (codes "s3_etag") long_text true

abbrev pub owner_column : Column
owner_column = record {
  name = codes "owner_id";
  type = string_of 128;
  nullable = false;
  server_default = some (codes "legacy");
}

abbrev pub file_checksum_column : Column
file_checksum_column = column (codes "file_checksum_sha256") (string_of 64) true

abbrev pub chunk_checksum_column : Column
chunk_checksum_column = column (codes "chunk_checksum_sha256") (string_of 64) true

module _ {S : Type 0} (op : Operations S) where
  -- `if name not in column_names: op.add_column(...)`.
  unfoldable pub add_if_missing : Text → Column → List Text → Exec S Unit
  add_if_missing table c names =
      if any (text_eq c.name) names then pure tt else op.add_column table c

  -- `if name in column_names: op.drop_column(...)`.
  unfoldable pub drop_if_there : Text → Text → List Text → Exec S Unit
  drop_if_there table name names =
      if any (text_eq name) names then op.drop_column table name else pure tt

  unfoldable pub upgrade_multipart : Exec S Unit
  upgrade_multipart = do
    op.add_column (codes "uploads") multipart_column
    op.add_column (codes "chunks") etag_column

  unfoldable pub downgrade_multipart : Exec S Unit
  downgrade_multipart = do
    op.drop_column (codes "chunks") (codes "s3_etag")
    op.drop_column (codes "uploads") (codes "multipart_upload_id")

  unfoldable pub upgrade_owner : Exec S Unit
  upgrade_owner = do
    column_names ← op.get_columns (codes "uploads")
    add_if_missing (codes "uploads") owner_column column_names

  unfoldable pub downgrade_owner : Exec S Unit
  downgrade_owner = do
    column_names ← op.get_columns (codes "uploads")
    drop_if_there (codes "uploads") (codes "owner_id") column_names

  unfoldable pub upgrade_checksums : Exec S Unit
  upgrade_checksums = do
    upload_columns ← op.get_columns (codes "uploads")
    chunk_columns ← op.get_columns (codes "chunks")
    add_if_missing (codes "uploads") file_checksum_column upload_columns
    add_if_missing (codes "chunks") chunk_checksum_column chunk_columns

  unfoldable pub downgrade_checksums : Exec S Unit
  downgrade_checksums = do
    upload_columns ← op.get_columns (codes "uploads")
    chunk_columns ← op.get_columns (codes "chunks")
    drop_if_there (codes "chunks") (codes "chunk_checksum_sha256") chunk_columns
    drop_if_there (codes "uploads") (codes "file_checksum_sha256") upload_columns
