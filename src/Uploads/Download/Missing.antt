-- ===== src/Uploads/Download/Missing.antt =====
-- The list of missing chunks against the rows that are there.
use distributed_file_service.Prelude.{
  ==_iff, All, Bool, Bool-cases, List, [], any, arith, count, distinct, false, find, if◌then◌else◌,
  inl, inr, leb, length, ltb, not, refl, select, some, suc, true, zero, ℕ, ◌&&◌, ◌+◌, ◌==◌, ◌∷◌,
  ◌≡◌, ◌≤◌,
}
use distributed_file_service.Text.{Text, text_eq, text_eq_iff}
use distributed_file_service.Exec.{Outcome, ok}
use distributed_file_service.Models.{Chunk, Upload, has_id, is_uploaded, uploaded_of}
use distributed_file_service.World.{AuthUser, World}
use distributed_file_service.Uploads.Access.Cases.{get_owned_own}
use distributed_file_service.Uploads.Download.{missing_from, missing_chunks, MissingChunksResponse}
use distributed_file_service.Uploads.Sound.{Fits, IsSound, same_chunk}

abbrev with_index : ℕ → Chunk → Bool
with_index i c = c.chunk_index == i

abbrev in_window : ℕ → ℕ → Chunk → Bool
in_window first n c = leb first c.chunk_index && ltb c.chunk_index (first + n)

abbrev same_index : Chunk → Chunk → Bool
same_index a b = a.chunk_index == b.chunk_index

-- No index is there twice, so a count by index is zero or one.
count-with_index :
    (i : ℕ) (cs : List Chunk)
    → distinct same_index cs ≡ true
    → count (with_index i) cs ≡ (if any (with_index i) cs then 1 else 0)
unfolding count any distinct
count-with_index i [] h = refl
count-with_index i (c ∷ cs) h = elim (Bool-cases (c.chunk_index == i)) [
  | inl e ↦
      ground (arith, count-with_index i cs, any-same i c cs ((==_iff c.chunk_index i).0 e), h, e)
  | inr e ↦ ground (arith, count-with_index i cs, h, e)
]
  where
    any-same :
        (i : ℕ) (c : Chunk) (cs : List Chunk)
        → c.chunk_index ≡ i
        → any (same_index c) cs ≡ any (with_index i) cs
    any-same i c [] e = refl
    any-same i c (d ∷ ds) e = ground (arith, any-same i c ds e)

count-window :
    (first n : ℕ) (cs : List Chunk)
    → count (in_window first (suc n)) cs
      ≡ count (with_index first) cs + count (in_window (first + 1) n) cs
unfolding count
count-window first n [] = refl
count-window first n (c ∷ cs) = ground (arith, count-window first n cs)

count-no_window : (first : ℕ) (cs : List Chunk) → count (in_window first 0) cs ≡ 0
unfolding count
count-no_window first [] = refl
count-no_window first (c ∷ cs) = ground (arith, count-no_window first cs)

length-missing_from :
    (first n : ℕ) (cs : List Chunk)
    → distinct same_index cs ≡ true
    → length (missing_from first n cs) + count (in_window first n) cs ≡ n
unfolding missing_from
length-missing_from first zero cs h = omega (arith, count-no_window first cs)
length-missing_from first (suc n) cs h = elim (Bool-cases (any (with_index first) cs)) [
  | inl e ↦ rw e (
      omega (
        arith,
        length-missing_from (first + 1) n cs h,
        count-window first n cs,
        rw e at (count-with_index first cs h),
      ))
  | inr e ↦ rw e (
      omega (
        arith,
        length-missing_from (first + 1) n cs h,
        count-window first n cs,
        rw e at (count-with_index first cs h),
      ))
]

-- An index is listed exactly when it is in the range and no row has it.
any-missing_from :
    (i first n : ℕ) (cs : List Chunk)
    → any (λ m. m == i) (missing_from first n cs)
      ≡ (leb first i && ltb i (first + n) && not (any (with_index i) cs))
unfolding missing_from any
any-missing_from i first zero cs = ground arith
any-missing_from i first (suc n) cs = elim (Bool-cases (any (with_index first) cs)) [
  | inl e ↦ rw e (ground (arith, any-missing_from i (first + 1) n cs, e))
  | inr e ↦ rw e (ground (arith, any-missing_from i (first + 1) n cs, e))
]

-- The rows of one upload have distinct indexes.
any-select :
    (id : Text) (c : Chunk) (cs : List Chunk)
    → c.upload_id ≡ id
    → any (same_chunk c) cs ≡ false
    → any (same_index c) (select (uploaded_of id) cs) ≡ false
unfolding any select uploaded_of
any-select id c [] h e = refl
any-select id c (d ∷ ds) h e = ground (
  arith,
  any-select id c ds h,
  e,
  h,
  text_eq_iff d.upload_id id,
  text_eq_iff c.upload_id d.upload_id,
)

distinct-select :
    (id : Text) (cs : List Chunk)
    → distinct same_chunk cs ≡ true
    → distinct same_index (select (uploaded_of id) cs) ≡ true
unfolding distinct select uploaded_of
distinct-select id [] h = refl
distinct-select id (c ∷ cs) h = elim (Bool-cases (text_eq c.upload_id id && is_uploaded c.status)) [
  | inl e ↦
      rw e (
        ground (arith, distinct-select id cs, h, any-select id c cs, text_eq_iff c.upload_id id, e))
  | inr e ↦ rw e (ground (arith, distinct-select id cs, h))
]

-- All uploaded rows of the upload have an index in it.
count-select :
    (id : Text) (n : ℕ) (cs : List Chunk)
    → All (Fits id n) cs
    → count (in_window 0 n) (select (uploaded_of id) cs) ≡ count (uploaded_of id) cs
unfolding count select uploaded_of
count-select id n [] h = refl
count-select id n (c ∷ cs) h =
    ground (arith, count-select id n cs h.1, h.0.fits, text_eq_iff c.upload_id id)

any-select_index :
    (id : Text) (i : ℕ) (cs : List Chunk)
    → any (with_index i) (select (uploaded_of id) cs)
      ≡ any (λ c. uploaded_of id c && c.chunk_index == i) cs
unfolding any select
any-select_index id i [] = refl
any-select_index id i (c ∷ cs) = ground (arith, any-select_index id i cs)

-- No more rows than indexes.
pub count-le-total :
    (id : Text) (n : ℕ) (cs : List Chunk)
    → All (Fits id n) cs
    → distinct same_chunk cs ≡ true
    → count (uploaded_of id) cs ≤ n
count-le-total id n cs h k = omega (
  arith,
  count-select id n cs h,
  length-missing_from 0 n (select (uploaded_of id) cs) (distinct-select id cs k),
)

-- An answer with the list of the missing chunks.
pub record Lists {St Q : Type 0} (id : Text) (u : Upload) (w : World St Q)
    (out : Outcome MissingChunksResponse × World St Q) : Type 0 where
  pub missing : List ℕ
  pub answer :
      out ≡ (ok (record { upload_id = id; missing_chunk_indexes = missing; status = u.status }), w)
  pub total : length missing + count (uploaded_of id) w.session.chunks ≡ u.total_chunks
  pub exactly :
      (i : ℕ)
      → any (λ m. m == i) missing ≡ (
          ltb i u.total_chunks
          && not (any (λ c. uploaded_of id c && c.chunk_index == i) w.session.chunks))

-- On sound tables, for an upload and its owner: together with the uploaded chunks, which
-- `complete_upload` counts, the missing ones that are listed make up the number of chunks; an index
-- is listed exactly when it is in the upload and no uploaded chunk has it; and nothing is changed.
pub missing_chunks-Lists :
    {St Q : Type 0} (id : Text) (user : AuthUser) (w : World St Q) (u : Upload)
    → IsSound w.session
    → find (has_id id) w.session.uploads ≡ some u
    → u.owner_id ≡ user.user_id
    → Lists id u w (missing_chunks id user w)
unfolding missing_chunks
missing_chunks-Lists id user w u sound found owner =
    let rows = select (uploaded_of id) w.session.chunks in
    record {
      missing = missing_from 0 u.total_chunks rows;
      answer = get_owned_own id user _ w u found owner;
      total = rw (← count-select id u.total_chunks w.session.chunks (sound.rows id u found)) (
          length-missing_from 0 u.total_chunks rows
            (distinct-select id w.session.chunks sound.unique_chunks));
      exactly = λ i.
          ground (
            arith,
            any-missing_from i 0 u.total_chunks rows,
            any-select_index id i w.session.chunks,
          );
    }
