-- ===== src/Migrations/Base.antt =====
-- Down to the base again.
use distributed_file_service.Prelude.{List, Option, any, if◌then◌else◌, refl, some, ◌++◌, ◌≡◌}
use distributed_file_service.Text.{Text, codes, text_eq}
use distributed_file_service.Exec.{ok, ◌>>◌}
use distributed_file_service.Migrations.{Operations}
use distributed_file_service.Migrations.Initial.{downgrade}
use distributed_file_service.Migrations.Later.{
  downgrade_checksums, downgrade_multipart, downgrade_owner, drop_if_there,
}
use distributed_file_service.Migrations.Documented.{
  Does, Does-if, Does-pure, Does-read, Does-then, IsDocumented, Schema, alter, and_then, drop_from,
  drop_index_of, drop_named, has_index, has_table, names_of, reading, without, without_index,
}
use distributed_file_service.Migrations.HeadTables.{head_tables}
use distributed_file_service.Migrations.Head.{
  IsFresh, downgrade_base, upgrade_head, upgrade_head-run,
}

abbrev drop_when : Text → Text → List Text → Schema → Option Schema
drop_when table name names a =
    if any (text_eq name) names then alter table (drop_from name) a else some a

module _ {S : Type 0} (op : Operations S) (describe : S → Schema)
    (known : IsDocumented op describe) where
  drop_if_there-Does :
      (table name : Text) (names : List Text)
      → Does describe (drop_if_there op table name names) (drop_when table name names)
  unfolding drop_if_there
  drop_if_there-Does table name names =
      Does-if describe (any (text_eq name) names) _ _ _ _ (known.drop_column table name)
        (Does-pure describe)

  abbrev checksums_undo_of : List Text → List Text → Schema → Option Schema
  checksums_undo_of uploads chunks a =
      and_then (drop_when (codes "chunks") (codes "chunk_checksum_sha256") chunks a)
        (drop_when (codes "uploads") (codes "file_checksum_sha256") uploads)

  abbrev checksums_undo : Schema → Option Schema
  checksums_undo =
      reading (codes "uploads") λ uploads. reading (codes "chunks") (checksums_undo_of uploads)

  downgrade_checksums-Does : Does describe (downgrade_checksums op) checksums_undo
  unfolding downgrade_checksums
  downgrade_checksums-Does =
      Does-read describe _ (codes "uploads") _
        (λ uploads. reading (codes "chunks") (checksums_undo_of uploads))
        (known.get_columns (codes "uploads"))
        (λ uploads.
          Does-read describe _ (codes "chunks") _ (checksums_undo_of uploads)
            (known.get_columns (codes "chunks"))
            (λ chunks.
              Does-then describe _ _ _ _
                (drop_if_there-Does (codes "chunks") (codes "chunk_checksum_sha256") chunks)
                (drop_if_there-Does (codes "uploads") (codes "file_checksum_sha256") uploads)))

  abbrev owner_undo : Schema → Option Schema
  owner_undo = reading (codes "uploads") (drop_when (codes "uploads") (codes "owner_id"))

  downgrade_owner-Does : Does describe (downgrade_owner op) owner_undo
  unfolding downgrade_owner
  downgrade_owner-Does =
      Does-read describe _ (codes "uploads") _ (drop_when (codes "uploads") (codes "owner_id"))
        (known.get_columns (codes "uploads"))
        (drop_if_there-Does (codes "uploads") (codes "owner_id"))

  downgrade_multipart-Does : Does describe (downgrade_multipart op) (λ a.
      and_then
        (alter (codes "chunks") (drop_from (codes "s3_etag")) a)
        (alter (codes "uploads") (drop_from (codes "multipart_upload_id"))))
  unfolding downgrade_multipart
  downgrade_multipart-Does =
      Does-then describe _ _ _ _ (known.drop_column (codes "chunks") (codes "s3_etag"))
        (known.drop_column (codes "uploads") (codes "multipart_upload_id"))

  abbrev initial_undo : Schema → Option Schema
  initial_undo a = and_then (drop_named (codes "complete_request_idempotency") a) λ b.
      and_then (drop_named (codes "chunk_request_idempotency") b) λ c.
        and_then (drop_named (codes "init_request_idempotency") c) λ d.
          and_then (alter (codes "chunks") (drop_index_of (codes "idx_chunks_upload_status")) d)
            λ e. and_then (drop_named (codes "chunks") e) (drop_named (codes "uploads"))

  downgrade-Does : Does describe (downgrade op) initial_undo
  unfolding downgrade
  downgrade-Does = Does-then describe _ _ _ _ (known.drop_table _) (
      Does-then describe _ _ _ _ (known.drop_table _) (
        Does-then describe _ _ _ _ (known.drop_table _) (
          Does-then describe _ _ _ _ (known.drop_index _ _)
            (Does-then describe _ _ _ _ (known.drop_table _) (known.drop_table _)))))

  abbrev base_does : Schema → Option Schema
  base_does a = and_then (checksums_undo a) λ b. and_then (owner_undo b) λ c.
      and_then
        (and_then (alter (codes "chunks") (drop_from (codes "s3_etag")) c)
          (alter (codes "uploads") (drop_from (codes "multipart_upload_id"))))
        initial_undo

  downgrade_base-Does : Does describe (downgrade_base op) base_does
  unfolding downgrade_base
  downgrade_base-Does = Does-then describe _ _ _ _ downgrade_checksums-Does (
      Does-then describe _ _ _ _ downgrade_owner-Does
        (Does-then describe _ _ _ _ downgrade_multipart-Does downgrade-Does))

  base_does-head : (a : Schema) → base_does (head_tables ++ a) ≡ some a
  unfolding alter drop_named has_table has_index drop_index_of drop_from without without_index
      names_of any text_eq
  base_does-head a = refl

  -- From a database without the service's tables, the downgrade after the upgrade runs to the end and
  -- leaves the tables as they were.
  pub downgrade_base-upgrade_head :
      (s : S)
      → IsFresh (describe s)
      → (s' : S) × ((upgrade_head op >> downgrade_base op) s ≡ (ok tt, s'))
        × (describe s' ≡ describe s)
  downgrade_base-upgrade_head s h =
      let (t, a, b) = upgrade_head-run op describe known s h in
      let (u, c, d) = downgrade_base-Does.run t (describe s) (rw b (base_does-head (describe s))) in
      (u, rw a c, d)
