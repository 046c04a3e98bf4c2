-- ===== src/Uploads/Contents/Changes.antt =====
-- The map of the stored bytes under the changes that a request on a chunk makes.
use distributed_file_service.Uploads.ChunkUpload.{put_chunk}
use distributed_file_service.Uploads.Contents.Rows.{find-put_chunk, find-put_chunk_other}
use distributed_file_service.Uploads.Contents.{IsLinked, SameContents, bytes_of, contents, put_at}
use distributed_file_service.Models.{Chunk, is_chunk}
use distributed_file_service.Dict.{insert, lookup, lookup-insert}
use distributed_file_service.Prelude.{
  Bool-cases, List, Option-cases, arith, false, find, if◌then◌else◌, inl, inr, refl, some, sym,
  true, ℕ, ◌&&◌, ◌==◌, ◌∙◌, ◌≡◌, ◌≢◌, ◌⊎◌,
}
use distributed_file_service.Text.{Bytes, Text, text_eq, text_eq_iff, text_eq_refl}
use distributed_file_service.Storage.{chunk_key}
use distributed_file_service.Storage.Keys.{chunk_key_inj}
use distributed_file_service.Storage.Local.{Files}

chunk_key-text_eq :
    (u v : Text) (i j : ℕ) → text_eq (chunk_key u i) (chunk_key v j) ≡ (text_eq u v && i == j)
chunk_key-text_eq u v i j = elim (Bool-cases (text_eq (chunk_key u i) (chunk_key v j))) [
  | inl e ↦
      let (p, q) = chunk_key_inj u v i j ((text_eq_iff (chunk_key u i) (chunk_key v j)).0 e) in
      (ground (arith, e, p, q, text_eq_iff u v))
  | inr e ↦ grind (arith, e, text_eq_iff u v, text_eq_refl (chunk_key u i))
]

same_chunk : (u v : Text) (i j : ℕ) → (text_eq u v && i == j) ≡ true → (u ≡ v) × (i ≡ j)
same_chunk u v i j h = ground (arith, h, text_eq_iff u v)

-- Chunks with other rows are other chunks.
differ :
    (chunks : List Chunk) (u v : Text) (i j : ℕ)
    → find (is_chunk u i) chunks ≢ find (is_chunk v j) chunks
    → (text_eq u v && i == j) ≡ false
differ chunks u v i j h = elim (Bool-cases (text_eq u v && i == j)) [
  | inl k ↦ let (p, q) = same_chunk u v i j k in absurd (h (rw (p, q) refl))
  | inr k ↦ k
]

-- The files with the file of a chunk.
abbrev written : Text → ℕ → Bytes → Files → Files
written u i body files = insert (chunk_key u i) body files

module _ (u : Text) (i : ℕ) (body : Bytes) (chunks : List Chunk) (files : Files)
    (linked : IsLinked chunks files) where
  lookup-written :
      (id : Text) (index : ℕ)
      → lookup (chunk_key id index) (written u i body files)
        ≡ (if text_eq u id && i == index then some body else lookup (chunk_key id index) files)
  lookup-written id index = rw (lookup-insert, chunk_key-text_eq) refl

  bytes_of-written :
      (id : Text) (index : ℕ) (d : Chunk)
      → find (is_chunk id index) chunks ≡ some d
      → bytes_of (some d) (written u i body files)
        ≡ (if text_eq u id && i == index then some body else bytes_of (some d) files)
  bytes_of-written id index d e = rw (linked.keys id index d e) (lookup-written id index)

  written-stored :
      (id : Text) (index : ℕ) (b : Bytes)
      → lookup (chunk_key id index) files ≡ some b
      → (b' : Bytes) × (lookup (chunk_key id index) (written u i body files) ≡ some b')
  written-stored id index b e = elim (Bool-cases (text_eq u id && i == index)) [
    | inl k ↦ (body, rw (lookup-written id index, k) refl)
    | inr k ↦ (b, rw (lookup-written id index, k) e)
  ]

  -- The file is written and the row is not.
  pub written-IsLinked : IsLinked chunks (written u i body files)
  written-IsLinked = record {
    keys = linked.keys;
    stored = λ id index d e. let (b, q) = linked.stored id index d e in written-stored id index b q;
  }

  pub written-contents :
      SameContents (contents chunks files) (contents chunks (written u i body files))
      ⊎ SameContents
          (put_at u i body (contents chunks files))
          (contents chunks (written u i body files))
  unfolding contents put_at
  written-contents = elim (Option-cases (find (is_chunk u i) chunks)) [
    | inl e ↦ inl (λ id index. elim (Option-cases (find (is_chunk id index) chunks)) [
      | inl n ↦ rw n refl
      | inr (d, n) ↦
          rw
            (
              n,
              bytes_of-written id index d n,
              differ chunks u id i index (λ q. ground (arith, q, e, n)),
            )
            refl
    ])
    | inr (x, e) ↦ inr (λ id index. elim (Option-cases (find (is_chunk id index) chunks)) [
      | inl n ↦ rw (n, differ chunks u id i index (λ q. ground (arith, q, e, n))) refl
      | inr (d, n) ↦ rw (n, bytes_of-written id index d n) refl
    ])
  ]

module _ (c : Chunk) (body : Bytes) (chunks : List Chunk) (files : Files)
    (linked : IsLinked chunks files) where
  -- A row after the row of `c` is put: it is that row, but for its time, or it was there.
  row_of :
      (id : Text) (index : ℕ) (d : Chunk)
      → find (is_chunk id index) (put_chunk c chunks) ≡ some d
      → (((text_eq c.upload_id id && c.chunk_index == index) ≡ true) × (d.s3_key ≡ c.s3_key))
        ⊎ (((text_eq c.upload_id id && c.chunk_index == index) ≡ false)
            × (find (is_chunk id index) chunks ≡ some d))
  unfolding is_chunk
  row_of id index d e = elim (Bool-cases (text_eq c.upload_id id && c.chunk_index == index)) [
    | inl k ↦
        let (p, q) = same_chunk c.upload_id id c.chunk_index index k in
        let (t, s, f) = find-put_chunk c chunks in
        let same = rw (← p, ← q) at e in inl (k, ground (arith, same, f))
    | inr k ↦ inr (k, sym (find-put_chunk_other c chunks id index k) ∙ e)
  ]

  module _ (own : c.s3_key ≡ chunk_key c.upload_id c.chunk_index) where
    -- The file and the row are written.
    pub recorded-IsLinked :
        IsLinked (put_chunk c chunks) (written c.upload_id c.chunk_index body files)
    recorded-IsLinked = record {
      keys = λ id index d e. elim (row_of id index d e) [
        | inl (k, q) ↦
            let (a, b) = same_chunk c.upload_id id c.chunk_index index k in rw (q, own, a, b) refl
        | inr (k, q) ↦ linked.keys id index d q
      ];
      stored = λ id index d e. elim (row_of id index d e) [
        | inl (k, q) ↦ (
          body,
          rw (lookup-written c.upload_id c.chunk_index body chunks files linked id index, k) refl,
        )
        | inr (k, q) ↦
            let (b, f) = linked.stored id index d q in
            written-stored c.upload_id c.chunk_index body chunks files linked id index b f
      ];
    }

    pub recorded-contents :
        SameContents
          (put_at c.upload_id c.chunk_index body (contents chunks files))
          (contents (put_chunk c chunks) (written c.upload_id c.chunk_index body files))
    unfolding contents put_at is_chunk
    recorded-contents id index =
        elim (Bool-cases (text_eq c.upload_id id && c.chunk_index == index)) [
          | inl k ↦
              let (p, q) = same_chunk c.upload_id id c.chunk_index index k in
              let (t, s, f) = find-put_chunk c chunks in
              rw (k, ← p, ← q, f, own, lookup-insert, text_eq_refl) refl
          | inr k ↦ elim (Option-cases (find (is_chunk id index) chunks)) [
            | inl n ↦ rw (k, find-put_chunk_other c chunks id index k, n) refl
            | inr (d, n) ↦
                rw
                  (
                    k,
                    find-put_chunk_other c chunks id index k,
                    n,
                    bytes_of-written c.upload_id c.chunk_index body chunks files linked id index d
                        n,
                    k,
                  )
                  refl
          ]
        ]
