-- ===== src/Uploads/Download/Order.antt =====
-- The chunks of a completed upload in the order in which they are read.
use distributed_file_service.Uploads.Download.Content.{length-chunks_of}
use distributed_file_service.Uploads.Complete.{chunks_of}
use distributed_file_service.Models.Rows.{All-map}
use distributed_file_service.Uploads.ChunkUpload.Acknowledged.{is_chunk-own}
use distributed_file_service.Prelude.{
  All, Bool, Bool-cases, List, [], any, arith, distinct, false, find, inl, inr, leb, length, refl,
  select, some, subst, true, ℕ, ◌+◌, ◌<◌, ◌==◌, ◌||◌, ◌∙◌, ◌∷◌, ◌≡◌, ◌≤◌,
}
use distributed_file_service.Text.{Text, text_eq_iff}
use distributed_file_service.Models.{
  Chunk, Db, Upload, completed, has_id, insert_chunk, is_chunk, of_upload, order_by_index,
}
use distributed_file_service.Uploads.Sound.{Fits, IsSound, same_chunk}

-- The indexes go up from `a`.
abbrev Ascends : ℕ → List Chunk → Type 0
Ascends a [] = Unit
Ascends a (c ∷ cs) = (a ≤ c.chunk_index) × Ascends (c.chunk_index + 1) cs

-- The indexes are `a`, `a + 1` and so on.
abbrev pub Indexed : ℕ → List Chunk → Type 0
Indexed a [] = Unit
Indexed a (c ∷ cs) = (c.chunk_index ≡ a) × Indexed (a + 1) cs

abbrev at_index : ℕ → Chunk → Bool
at_index i d = d.chunk_index == i

Ascends-insert_chunk :
    (a : ℕ) (c : Chunk) (cs : List Chunk)
    → a ≤ c.chunk_index
    → any (at_index c.chunk_index) cs ≡ false
    → Ascends a cs
    → Ascends a (insert_chunk c cs)
unfolding insert_chunk any
Ascends-insert_chunk a c [] h n s = (h, tt)
Ascends-insert_chunk a c (d ∷ ds) h n s = elim (Bool-cases (leb c.chunk_index d.chunk_index)) [
  | inl e ↦ rw e (h, (ground (arith, e, n), s.1))
  | inr e ↦ rw e (
    s.0,
    Ascends-insert_chunk (d.chunk_index + 1) c ds (ground (arith, e)) (ground (arith, n)) s.1,
  )
]

any-insert_chunk :
    (p : Chunk → Bool) (c : Chunk) (cs : List Chunk) → any p (insert_chunk c cs) ≡ (p c || any p cs)
unfolding insert_chunk any
any-insert_chunk p c [] = refl
any-insert_chunk p c (d ∷ ds) = ground (arith, any-insert_chunk p c ds)

any-order_by_index : (p : Chunk → Bool) (cs : List Chunk) → any p (order_by_index cs) ≡ any p cs
unfolding order_by_index any
any-order_by_index p [] = refl
any-order_by_index p (c ∷ cs) =
    rw (any-insert_chunk p c (order_by_index cs), any-order_by_index p cs) refl

pub All-insert_chunk {κ} :
    (P : Chunk → Type κ) (c : Chunk) (cs : List Chunk) → P c → All P cs → All P (insert_chunk c cs)
unfolding insert_chunk
All-insert_chunk P c [] h k = (h, tt)
All-insert_chunk P c (d ∷ ds) h k = elim (Bool-cases (leb c.chunk_index d.chunk_index)) [
  | inl e ↦ rw e (h, k)
  | inr e ↦ rw e (k.0, All-insert_chunk P c ds h k.1)
]

pub All-order_by_index {κ} :
    (P : Chunk → Type κ) (cs : List Chunk) → All P cs → All P (order_by_index cs)
unfolding order_by_index
All-order_by_index P [] h = tt
All-order_by_index P (c ∷ cs) h =
    All-insert_chunk P c (order_by_index cs) h.0 (All-order_by_index P cs h.1)

-- The rows of one upload, no two of one chunk, are put in order.
any-select :
    (id : Text) (c : Chunk) (cs : List Chunk)
    → of_upload id c ≡ true
    → any (same_chunk c) cs ≡ false
    → any (at_index c.chunk_index) (select (of_upload id) cs) ≡ false
unfolding any select of_upload
any-select id c [] h n = refl
any-select id c (d ∷ ds) h n = elim (Bool-cases (of_upload id d)) [
  | inl e ↦ rw e (
      ground (
        arith,
        e,
        h,
        n,
        text_eq_iff c.upload_id d.upload_id,
        text_eq_iff c.upload_id id,
        text_eq_iff d.upload_id id,
        any-select id c ds h,
      ))
  | inr e ↦ rw e (any-select id c ds h (ground (arith, n)))
]

Ascends-chunks :
    (id : Text) (cs : List Chunk)
    → distinct same_chunk cs ≡ true
    → Ascends 0 (order_by_index (select (of_upload id) cs))
unfolding distinct select order_by_index
Ascends-chunks id [] h = tt
Ascends-chunks id (c ∷ cs) h = elim (Bool-cases (of_upload id c)) [
  | inl e ↦ rw e (
      Ascends-insert_chunk 0 c (order_by_index (select (of_upload id) cs)) (omega arith)
        (any-order_by_index (at_index c.chunk_index) (select (of_upload id) cs)
          ∙ any-select id c cs e (ground (arith, h)))
        (Ascends-chunks id cs (ground (arith, h))))
  | inr e ↦ rw e (Ascends-chunks id cs (ground (arith, h)))
]

room :
    (a b : ℕ) (cs : List Chunk)
    → a ≤ b
    → Ascends a cs
    → All (λ c. c.chunk_index < b) cs
    → a + length cs ≤ b
room a b [] h s k = omega (arith, h)
room a b (c ∷ cs) h s k =
    omega (arith, room (c.chunk_index + 1) b cs (omega (arith, k.0)) s.1 k.1, s.0)

Indexed-full :
    (a b : ℕ) (cs : List Chunk)
    → Ascends a cs
    → All (λ c. c.chunk_index < b) cs
    → a + length cs ≡ b
    → Indexed a cs
Indexed-full a b [] s k e = tt
Indexed-full a b (c ∷ cs) s k e =
    let first : c.chunk_index ≡ a =
      omega (arith, room (c.chunk_index + 1) b cs (omega (arith, k.0)) s.1 k.1, s.0, e) in
    (first, Indexed-full (a + 1) b cs (rw (← first) s.1) k.1 (omega (arith, e)))

-- Each row is the one that is found under its upload and index.
not_same :
    (x : Chunk) (ys : List Chunk)
    → any (same_chunk x) ys ≡ false
    → All (λ c. is_chunk c.upload_id c.chunk_index x ≡ false) ys
unfolding any is_chunk
not_same x [] h = tt
not_same x (y ∷ ys) h = (ground (arith, h), not_same x ys (ground (arith, h)))

later :
    (x : Chunk) (xs ys : List Chunk)
    → All (λ c. is_chunk c.upload_id c.chunk_index x ≡ false) ys
    → All (λ c. find (is_chunk c.upload_id c.chunk_index) xs ≡ some c) ys
    → All (λ c. find (is_chunk c.upload_id c.chunk_index) (x ∷ xs) ≡ some c) ys
unfolding find
later x xs [] h k = tt
later x xs (y ∷ ys) h k = (rw h.0 k.0, later x xs ys h.1 k.1)

found_own :
    (cs : List Chunk)
    → distinct same_chunk cs ≡ true
    → All (λ c. find (is_chunk c.upload_id c.chunk_index) cs ≡ some c) cs
unfolding distinct find
found_own [] h = tt
found_own (c ∷ cs) h = (
  rw (is_chunk-own c) refl,
  later c cs cs (not_same c cs (ground (arith, h))) (found_own cs (ground (arith, h))),
)

-- What is known of each chunk that a download reads.
pub record Listed (id : Text) (total : ℕ) (chunks : List Chunk) (c : Chunk) : Type 0 where
  pub in_range : c.chunk_index < total
  pub found : find (is_chunk id c.chunk_index) chunks ≡ some c

select-Listed :
    (id : Text) (total : ℕ) (chunks cs : List Chunk)
    → All (Fits id total) cs
    → All (λ c. find (is_chunk c.upload_id c.chunk_index) chunks ≡ some c) cs
    → All (Listed id total chunks) (select (of_upload id) cs)
unfolding select of_upload
select-Listed id total chunks [] h k = tt
select-Listed id total chunks (c ∷ cs) h k = elim (Bool-cases (of_upload id c)) [
  | inl e ↦
      let own : c.upload_id ≡ id = (text_eq_iff c.upload_id id).0 e in
      rw e (
        record {
          in_range = (h.0.fits own).1;
          found = subst (λ i. find (is_chunk i c.chunk_index) chunks ≡ some c) own k.0;
        },
        select-Listed id total chunks cs h.1 k.1,
      )
  | inr e ↦ rw e (select-Listed id total chunks cs h.1 k.1)
]

module _ (id : Text) (db : Db) (u : Upload) (sound : IsSound db)
    (found : find (has_id id) db.uploads ≡ some u) where
  pub chunks_of-Listed : All (Listed id u.total_chunks db.chunks) (chunks_of id db)
  unfolding chunks_of
  chunks_of-Listed =
      All-order_by_index (Listed id u.total_chunks db.chunks) (select (of_upload id) db.chunks) (
        select-Listed id u.total_chunks db.chunks db.chunks (sound.rows id u found)
          (found_own db.chunks sound.unique_chunks))

  -- The chunks of a completed upload on sound tables are read in the order of their indexes, which
  -- are 0 and so on up to the number of chunks that was announced.
  pub chunks_of-Indexed :
      u.status ≡ completed
      → (Indexed 0 (chunks_of id db)) × (length (chunks_of id db) ≡ u.total_chunks)
  unfolding chunks_of
  chunks_of-Indexed done = (
    Indexed-full 0 u.total_chunks (chunks_of id db)
        (Ascends-chunks id db.chunks sound.unique_chunks)
        (All-map (chunks_of id db) (λ c l. l.in_range) chunks_of-Listed)
        (omega (arith, length-chunks_of id db u sound found done)),
    length-chunks_of id db u sound found done,
  )
