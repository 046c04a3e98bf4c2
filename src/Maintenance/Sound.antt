-- ===== src/Maintenance/Sound.antt =====
-- The invariant of the tables under a cleanup, when the database cascades.
use distributed_file_service.Prelude.{
  All, Bool, Bool-cases, List, [], any, ap, arith, count, distinct, false, find, if◌then◌else◌, inl,
  inr, none, not, refl, select, some, sym, true, ℕ, ◌∙◌, ◌∷◌, ◌≡◌,
}
use distributed_file_service.Text.{Text, text_eq, text_eq_iff}
use distributed_file_service.Models.{Chunk, Db, Upload, has_id, of_upload, uploaded_of}
use distributed_file_service.World.{Service, World}
use distributed_file_service.Uploads.Sound.{Fits, IsSound, same_chunk}
use distributed_file_service.Maintenance.{
  cleanup_once, delete_expired, delete_uploads, ids_of, is_one_of, is_stale,
}
use distributed_file_service.Maintenance.Effect.{cleanup_once-effect}

find-select_id :
    (ids : List Text) (j : Text) (us : List Upload)
    → find (has_id j) (select (λ u. not (is_one_of ids u.id)) us)
      ≡ (if is_one_of ids j then none else find (has_id j) us)
unfolding find select
find-select_id ids j [] = ground arith
find-select_id ids j (u ∷ us) = elim (Bool-cases (text_eq u.id j)) [
  | inl own ↦
      let e : u.id ≡ j = (text_eq_iff u.id j).0 own in
      elim (Bool-cases (is_one_of ids j)) [
        | inl gone ↦ rw (ap (is_one_of ids) e, gone) (find-select_id ids j us ∙ rw gone refl)
        | inr kept ↦ rw (ap (is_one_of ids) e, kept, find, own) refl
      ]
  | inr other ↦ elim (Bool-cases (is_one_of ids u.id)) [
    | inl gone ↦ rw (gone, other) (find-select_id ids j us)
    | inr kept ↦ rw (kept, find, other) (find-select_id ids j us)
  ]
]

-- A test that takes rows of the upload only.
count-select_id :
    (p : Chunk → Bool) (ids : List Text) (j : Text) (cs : List Chunk)
    → ((c : Chunk) → p c ≡ true → c.upload_id ≡ j)
    → count p (select (λ c. not (is_one_of ids c.upload_id)) cs)
      ≡ (if is_one_of ids j then 0 else count p cs)
unfolding count select
count-select_id p ids j [] h = ground arith
count-select_id p ids j (c ∷ cs) h = elim (Bool-cases (p c)) [
  | inl own ↦
      let e : c.upload_id ≡ j = h c own in
      elim (Bool-cases (is_one_of ids j)) [
        | inl gone ↦ rw (ap (is_one_of ids) e, gone) (count-select_id p ids j cs h ∙ rw gone refl)
        | inr kept ↦
            rw (ap (is_one_of ids) e, kept, count, own)
              (omega (arith, rw kept at (count-select_id p ids j cs h)))
      ]
  | inr other ↦ elim (Bool-cases (is_one_of ids c.upload_id)) [
    | inl gone ↦ rw gone (ground (arith, other, count-select_id p ids j cs h))
    | inr kept ↦ rw kept (ground (arith, other, count-select_id p ids j cs h))
  ]
]

All-select :
    {A : Type 0} (P : A → Type 0) (p : A → Bool) (xs : List A) → All P xs → All P (select p xs)
unfolding select
All-select P p [] h = tt
All-select P p (x ∷ xs) h = elim (Bool-cases (p x)) [
  | inl e ↦ rw e (h.0, All-select P p xs h.1)
  | inr e ↦ rw e (All-select P p xs h.1)
]

any-select_none :
    {A : Type 0} (q p : A → Bool) (xs : List A) → any q xs ≡ false → any q (select p xs) ≡ false
unfolding any select
any-select_none q p [] h = refl
any-select_none q p (x ∷ xs) h = ground (arith, any-select_none q p xs, h)

pub distinct-select :
    {A : Type 0} (same : A → A → Bool) (p : A → Bool) (xs : List A)
    → distinct same xs ≡ true
    → distinct same (select p xs) ≡ true
unfolding distinct select
distinct-select same p [] h = refl
distinct-select same p (x ∷ xs) h =
    ground (arith, distinct-select same p xs, any-select_none (same x) p xs, h)

of_uploaded : (j : Text) (c : Chunk) → uploaded_of j c ≡ true → c.upload_id ≡ j
unfolding uploaded_of
of_uploaded j c h = ground (arith, h, text_eq_iff c.upload_id j)

of_own : (j : Text) (c : Chunk) → of_upload j c ≡ true → c.upload_id ≡ j
unfolding of_upload
of_own j c h = (text_eq_iff c.upload_id j).0 h

deleted-IsSound : (ids : List Text) (db : Db) → IsSound db → IsSound (delete_uploads true ids db)
unfolding delete_uploads
deleted-IsSound ids db h = record {
  complete = λ j u e d. by_id j u e (λ kept n.
      rw (count-select_id (uploaded_of j) ids j db.chunks (of_uploaded j), kept)
        (h.complete j u n d));
  rows = λ j u e. by_id j u e (λ kept n.
      All-select (Fits j u.total_chunks) (λ c. not (is_one_of ids c.upload_id)) db.chunks
        (h.rows j u n));
  no_orphan = λ j e. elim (Bool-cases (is_one_of ids j)) [
    | inl gone ↦ rw (count-select_id (of_upload j) ids j db.chunks (of_own j), gone) refl
    | inr kept ↦
        rw (count-select_id (of_upload j) ids j db.chunks (of_own j), kept)
          (h.no_orphan j (rw kept at (sym (find-select_id ids j db.uploads) ∙ e)))
  ];
  initial = λ j u e s. by_id j u e (λ kept n.
      rw (count-select_id (of_upload j) ids j db.chunks (of_own j), kept) (h.initial j u n s));
  unique_chunks =
      distinct-select same_chunk (λ c. not (is_one_of ids c.upload_id)) db.chunks h.unique_chunks;
}
  where
    by_id :
        {P : Type 0} (j : Text) (u : Upload)
        → find (has_id j) (select (λ x. not (is_one_of ids x.id)) db.uploads) ≡ some u
        → (is_one_of ids j ≡ false → find (has_id j) db.uploads ≡ some u → P)
        → P
    by_id j u e k = elim (Bool-cases (is_one_of ids j)) [
      | inl gone ↦ absurd (ground (arith, e, find-select_id ids j db.uploads, gone))
      | inr kept ↦ k kept (rw kept at (sym (find-select_id ids j db.uploads) ∙ e))
    ]

expired-IsSound :
    {St Q : Type 0} (v : Service St Q) (now : ℕ) (db : Db)
    → IsSound db
    → IsSound (delete_expired v.config now db)
unfolding delete_expired
expired-IsSound v now db h = record {
  complete = h.complete;
  rows = h.rows;
  no_orphan = h.no_orphan;
  initial = h.initial;
  unique_chunks = h.unique_chunks;
}

select-select :
    (j : Text) (ids : List Text) (cs : List Chunk)
    → is_one_of ids j ≡ false
    → select (of_upload j) (select (λ c. not (is_one_of ids c.upload_id)) cs)
      ≡ select (of_upload j) cs
unfolding select
select-select j ids [] h = refl
select-select j ids (c ∷ cs) h = elim (Bool-cases (of_upload j c)) [
  | inl own ↦
      rw (ap (is_one_of ids) (of_own j c own), h, select, own)
        (ap (◌∷◌ c) (select-select j ids cs h))
  | inr other ↦ elim (Bool-cases (is_one_of ids c.upload_id)) [
    | inl gone ↦ rw (gone, other) (select-select j ids cs h)
    | inr kept ↦ rw (kept, select, other) (select-select j ids cs h)
  ]
]

-- Every upload that is there afterwards was there before, as it is, with the same rows of chunks.
abbrev pub StaysWhole : Db → Db → Type 0
StaysWhole before after =
    (j : Text) (u : Upload)
    → find (has_id j) after.uploads ≡ some u
    → (find (has_id j) before.uploads ≡ some u)
      × (select (of_upload j) after.chunks ≡ select (of_upload j) before.chunks)

deleted-StaysWhole : (ids : List Text) (db : Db) → StaysWhole db (delete_uploads true ids db)
unfolding delete_uploads
deleted-StaysWhole ids db j u e = elim (Bool-cases (is_one_of ids j)) [
  | inl gone ↦ absurd (ground (arith, e, find-select_id ids j db.uploads, gone))
  | inr kept ↦
      (rw kept at (sym (find-select_id ids j db.uploads) ∙ e), select-select j ids db.chunks kept)
]

-- When the database cascades, a cleanup keeps the tables sound, so no chunk is left without its
-- upload; and every upload that is there afterwards was there before as it is, with exactly the rows
-- of chunks that it has.
pub cleanup_once-IsSound :
    {St Q : Type 0} (v : Service St Q) (w : World St Q)
    → w.session ≡ w.db
    → IsSound w.db
    → IsSound (cleanup_once v true w).1.db × StaysWhole w.db (cleanup_once v true w).1.db
unfolding delete_expired
cleanup_once-IsSound v w fresh h = elim (cleanup_once-effect v true w fresh) [
  | inl same ↦ rw same (h, λ j u e. (e, refl))
  | inr c ↦
      let ids = ids_of (select (is_stale v.config w.now) w.db.uploads) in
      rw c (expired-IsSound v w.now _ (deleted-IsSound ids w.db h), deleted-StaysWhole ids w.db)
]
