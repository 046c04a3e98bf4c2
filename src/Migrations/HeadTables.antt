-- ===== src/Migrations/HeadTables.antt =====
-- The tables that the migrations end with, against the declared ones.
use distributed_file_service.Prelude.{List, [], any, refl, ◌++◌, ◌∷◌}
use distributed_file_service.Text.{codes, text_eq}
use distributed_file_service.Migrations.{Table}
use distributed_file_service.Migrations.Initial.{
  initial_chunk_requests, initial_chunks, initial_complete_requests, initial_init_requests,
  initial_uploads,
}
use distributed_file_service.Migrations.Later.{
  chunk_checksum_column, etag_column, file_checksum_column, multipart_column, owner_column,
}
use distributed_file_service.Migrations.Declared.{
  AllAgree, bool_eq, columns_within, declared_with_default, default_eq, same_column, type_eq,
}

-- The tables at the end.
abbrev pub head_tables : List Table
head_tables =
    initial_complete_requests
    ∷ initial_chunk_requests
    ∷ initial_init_requests
    ∷ record initial_chunks {
      columns = initial_chunks.columns ++ etag_column ∷ chunk_checksum_column ∷ [];
      indexes = (codes "idx_chunks_upload_status", codes "upload_id" ∷ codes "status" ∷ []) ∷ [];
    }
    ∷ record initial_uploads {
      columns =
          initial_uploads.columns ++ multipart_column ∷ owner_column ∷ file_checksum_column ∷ [];
    }
    ∷ []

pub head_tables-declared : AllAgree head_tables declared_with_default
unfolding columns_within any same_column type_eq bool_eq default_eq text_eq
head_tables-declared = (
  record {
    same_name = refl;
    same_number = refl;
    within = refl;
    covers = refl;
    same_primary_key = refl;
    same_foreign_keys = refl;
    same_unique_keys = refl;
    same_indexes = refl;
  },
  (
    record {
      same_name = refl;
      same_number = refl;
      within = refl;
      covers = refl;
      same_primary_key = refl;
      same_foreign_keys = refl;
      same_unique_keys = refl;
      same_indexes = refl;
    },
    (
      record {
        same_name = refl;
        same_number = refl;
        within = refl;
        covers = refl;
        same_primary_key = refl;
        same_foreign_keys = refl;
        same_unique_keys = refl;
        same_indexes = refl;
      },
      (
        record {
          same_name = refl;
          same_number = refl;
          within = refl;
          covers = refl;
          same_primary_key = refl;
          same_foreign_keys = refl;
          same_unique_keys = refl;
          same_indexes = refl;
        },
        (
          record {
            same_name = refl;
            same_number = refl;
            within = refl;
            covers = refl;
            same_primary_key = refl;
            same_foreign_keys = refl;
            same_unique_keys = refl;
            same_indexes = refl;
          },
          tt,
        ),
      ),
    ),
  ),
)
