-- ===== src/Migrations/Head.antt =====
-- All migrations one after the other.
use distributed_file_service.Prelude.{
  List, Option, [], any, false, if◌then◌else◌, refl, some, ◌++◌, ◌∷◌, ◌≡◌,
}
use distributed_file_service.Text.{Text, codes, text_eq}
use distributed_file_service.Exec.{Exec, ok, ◌>>◌}
use distributed_file_service.Migrations.{Column, Operations, Table}
use distributed_file_service.Migrations.Initial.{
  downgrade, initial_chunk_requests, initial_chunks, initial_complete_requests,
  initial_init_requests, initial_uploads, upgrade,
}
use distributed_file_service.Migrations.Later.{
  add_if_missing, chunk_checksum_column, downgrade_checksums, downgrade_multipart, downgrade_owner,
  etag_column, file_checksum_column, multipart_column, owner_column, upgrade_checksums,
  upgrade_multipart, upgrade_owner,
}
use distributed_file_service.Migrations.Documented.{
  Does, Does-if, Does-pure, Does-read, Does-then, IsDocumented, Schema, add_index, add_to, alter,
  and_then, create, has_index, has_table, names_of, reading,
}
use distributed_file_service.Migrations.HeadTables.{head_tables, head_tables-declared}
use distributed_file_service.Migrations.Declared.{AllAgree, declared_with_default}

-- `alembic upgrade head` and `alembic downgrade base`.
module _ {S : Type 0} (op : Operations S) where
  unfoldable pub upgrade_head : Exec S Unit
  upgrade_head = do upgrade op; upgrade_multipart op; upgrade_owner op; upgrade_checksums op

  unfoldable pub downgrade_base : Exec S Unit
  downgrade_base = do
    downgrade_checksums op
    downgrade_owner op
    downgrade_multipart op
    downgrade op

-- No table of the service is there yet; other tables may be.
pub record IsFresh (a : Schema) : Type 0 where
  pub no_uploads : has_table (codes "uploads") a ≡ false
  pub no_chunks : has_table (codes "chunks") a ≡ false
  pub no_init : has_table (codes "init_request_idempotency") a ≡ false
  pub no_chunk_requests : has_table (codes "chunk_request_idempotency") a ≡ false
  pub no_complete : has_table (codes "complete_request_idempotency") a ≡ false

abbrev index_of_chunks : Table → Option Table
index_of_chunks =
    add_index (codes "idx_chunks_upload_status") (codes "upload_id" ∷ codes "status" ∷ [])

-- What each migration does to a description.
abbrev initial_does : Schema → Option Schema
initial_does a = and_then (create initial_uploads a) λ b. and_then (create initial_chunks b) λ c.
    and_then (alter (codes "chunks") index_of_chunks c) λ d.
      and_then (create initial_init_requests d)
        λ e. and_then (create initial_chunk_requests e) (create initial_complete_requests)

abbrev add_unless : Text → Column → List Text → Schema → Option Schema
add_unless table c names a = if any (text_eq c.name) names then some a else alter table (add_to c) a

abbrev multipart_does : Schema → Option Schema
multipart_does a =
    and_then (alter (codes "uploads") (add_to multipart_column) a)
      (alter (codes "chunks") (add_to etag_column))

abbrev owner_does : Schema → Option Schema
owner_does = reading (codes "uploads") (add_unless (codes "uploads") owner_column)

abbrev checksums_of : List Text → List Text → Schema → Option Schema
checksums_of uploads chunks a =
    and_then (add_unless (codes "uploads") file_checksum_column uploads a)
      (add_unless (codes "chunks") chunk_checksum_column chunks)

abbrev checksums_do : Schema → Option Schema
checksums_do = reading (codes "uploads") λ uploads. reading (codes "chunks") (checksums_of uploads)

abbrev head_does : Schema → Option Schema
head_does a =
    and_then (initial_does a)
      λ b. and_then (multipart_does b) λ c. and_then (owner_does c) checksums_do

head_does-fresh : (a : Schema) → IsFresh a → head_does a ≡ some (head_tables ++ a)
unfolding create has_table alter add_index has_index add_to names_of any text_eq
head_does-fresh a h =
    rw (h.no_uploads, h.no_chunks, h.no_init, h.no_chunk_requests, h.no_complete) refl

module _ {S : Type 0} (op : Operations S) (describe : S → Schema)
    (known : IsDocumented op describe) where
  upgrade-Does : Does describe (upgrade op) initial_does
  unfolding upgrade
  upgrade-Does = Does-then describe _ _ _ _ (known.create_table initial_uploads) (
      Does-then describe _ _ _ _ (known.create_table initial_chunks) (
        Does-then describe _ _ _ _ (known.create_index _ _ _) (
          Does-then describe _ _ _ _ (known.create_table initial_init_requests) (
            Does-then describe _ _ _ _ (known.create_table initial_chunk_requests)
              (known.create_table initial_complete_requests)))))

  upgrade_multipart-Does : Does describe (upgrade_multipart op) multipart_does
  unfolding upgrade_multipart
  upgrade_multipart-Does =
      Does-then describe _ _ _ _ (known.add_column (codes "uploads") multipart_column)
        (known.add_column (codes "chunks") etag_column)

  add_if_missing-Does :
      (table : Text) (c : Column) (names : List Text)
      → Does describe (add_if_missing op table c names) (add_unless table c names)
  unfolding add_if_missing
  add_if_missing-Does table c names =
      Does-if describe (any (text_eq c.name) names) _ _ _ _ (Does-pure describe)
        (known.add_column table c)

  upgrade_owner-Does : Does describe (upgrade_owner op) owner_does
  unfolding upgrade_owner
  upgrade_owner-Does =
      Does-read describe _ (codes "uploads") _ (add_unless (codes "uploads") owner_column)
        (known.get_columns (codes "uploads")) (add_if_missing-Does (codes "uploads") owner_column)

  upgrade_checksums-Does : Does describe (upgrade_checksums op) checksums_do
  unfolding upgrade_checksums
  upgrade_checksums-Does =
      Does-read describe _ (codes "uploads") _
        (λ uploads. reading (codes "chunks") (checksums_of uploads))
        (known.get_columns (codes "uploads"))
        (λ uploads.
          Does-read describe _ (codes "chunks") _ (checksums_of uploads)
            (known.get_columns (codes "chunks"))
            (λ chunks.
              Does-then describe _ _ _ _
                (add_if_missing-Does (codes "uploads") file_checksum_column uploads)
                (add_if_missing-Does (codes "chunks") chunk_checksum_column chunks)))

  upgrade_head-Does : Does describe (upgrade_head op) head_does
  unfolding upgrade_head
  upgrade_head-Does = Does-then describe _ _ _ _ upgrade-Does (
      Does-then describe _ _ _ _ upgrade_multipart-Does
        (Does-then describe _ _ _ _ upgrade_owner-Does upgrade_checksums-Does))

  -- The upgrade, with the tables that it ends with.
  pub upgrade_head-run :
      (s : S)
      → IsFresh (describe s)
      → (s' : S) × (upgrade_head op s ≡ (ok tt, s')) × (describe s' ≡ head_tables ++ describe s)
  upgrade_head-run s h =
      upgrade_head-Does.run s (head_tables ++ describe s) (head_does-fresh (describe s) h)

  -- From a database without the service's tables, the migrations run to the end and add exactly the
  -- five tables that the models declare, with their columns, types, nullability, keys and indexes, but
  -- for the order of columns and for the server's default "legacy" of `owner_id`, which the models do
  -- not declare; other tables stay.
  pub upgrade_head-Agrees :
      (s : S)
      → IsFresh (describe s)
      → (s' : S) × (ts : List Table) × (upgrade_head op s ≡ (ok tt, s'))
        × (describe s' ≡ ts ++ describe s)
        × AllAgree ts declared_with_default
  upgrade_head-Agrees s h =
      let (s', a, b) = upgrade_head-run s h in (s', head_tables, a, b, head_tables-declared)
