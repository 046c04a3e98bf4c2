-- ===== src/Maintenance/Completed.antt =====
-- Completed uploads are no part of a cleanup.
use distributed_file_service.Prelude.{
  Bool, Bool-cases, List, [], any, arith, count, distinct, false, find, inl, inr, not, refl, select,
  some, true, ℕ, ◌&&◌, ◌∷◌, ◌≡◌,
}
use distributed_file_service.Text.{Text, text_eq, text_eq_iff}
use distributed_file_service.Config.{Settings}
use distributed_file_service.Models.{
  Chunk, Db, Upload, completed, constraints_hold, has_id, is_uploaded, uploaded_of,
}
use distributed_file_service.Models.Rows.{find-some}
use distributed_file_service.World.{Service, World}
use distributed_file_service.Maintenance.{
  cleanup_once, delete_uploads, delete_expired, ids_of, is_one_of, is_stale,
}
use distributed_file_service.Maintenance.Effect.{cleaned, cleanup_once-effect}

abbrev pub same_id : Upload → Upload → Bool
same_id a b = text_eq a.id b.id

-- No row of the list has the id of this upload.
is_one_of-none :
    (p : Upload → Bool) (x : Upload) (id : Text) (us : List Upload)
    → x.id ≡ id
    → any (same_id x) us ≡ false
    → is_one_of (ids_of (select p us)) id ≡ false
unfolding is_one_of any select
is_one_of-none p x id [] h e = refl
is_one_of-none p x id (u ∷ us) h e =
    ground (arith, is_one_of-none p x id us h, e, h, text_eq_iff x.id u.id, text_eq_iff u.id id)

-- An upload that the test does not take has an id that no taken one has.
is_one_of-other :
    (p : Upload → Bool) (u : Upload) (id : Text) (us : List Upload)
    → distinct same_id us ≡ true
    → find (has_id id) us ≡ some u
    → p u ≡ false
    → is_one_of (ids_of (select p us)) id ≡ false
unfolding is_one_of any select find distinct
is_one_of-other p u id [] d e k = ground (arith, e)
is_one_of-other p u id (x ∷ xs) d e k = elim (Bool-cases (text_eq x.id id)) [
  | inl own ↦ ground (arith, is_one_of-none p x id xs ((text_eq_iff x.id id).0 own), d, own, e, k)
  | inr other ↦ ground (arith, is_one_of-other p u id xs, d, other, e, k)
]

find-select :
    {A : Type 0} (p keep : A → Bool) (x : A) (xs : List A)
    → find p xs ≡ some x
    → keep x ≡ true
    → find p (select keep xs) ≡ some x
unfolding find select
find-select p keep x [] e k = ground (arith, e)
find-select p keep x (y ∷ ys) e k = elim (Bool-cases (p y)) [
  | inl own ↦ ground (arith, own, e, k)
  | inr other ↦ elim (Bool-cases (keep y)) [
    | inl kept ↦ rw (kept, find, other) (find-select p keep x ys (rw (other, find) at e) k)
    | inr gone ↦ rw gone (find-select p keep x ys (rw (other, find) at e) k)
  ]
]

count-select_kept :
    {A : Type 0} (p keep : A → Bool) (xs : List A)
    → ((x : A) → p x ≡ true → keep x ≡ true)
    → count p (select keep xs) ≡ count p xs
unfolding count select
count-select_kept p keep [] h = refl
count-select_kept p keep (x ∷ xs) h = elim (Bool-cases (p x)) [
  | inl own ↦ ground (arith, own, h x own, count-select_kept p keep xs h)
  | inr other ↦ ground (arith, other, count-select_kept p keep xs h)
]

-- The upload of an id, as it was, with as many uploaded chunks.
abbrev pub StillThere : Text → Upload → Db → Db → Type 0
StillThere id u before after =
    (find (has_id id) after.uploads ≡ some u)
    × (count (uploaded_of id) after.chunks ≡ count (uploaded_of id) before.chunks)

delete_uploads-StillThere :
    (cascades : Bool) (ids : List Text) (id : Text) (u : Upload) (db : Db)
    → find (has_id id) db.uploads ≡ some u
    → u.id ≡ id
    → is_one_of ids id ≡ false
    → StillThere id u db (delete_uploads cascades ids db)
unfolding delete_uploads uploaded_of
delete_uploads-StillThere false ids id u db e h k =
    (find-select (has_id id) (λ x. not (is_one_of ids x.id)) u db.uploads e (rw (h, k) refl), refl)
delete_uploads-StillThere true ids id u db e h k = (
  find-select (has_id id) (λ x. not (is_one_of ids x.id)) u db.uploads e (rw (h, k) refl),
  count-select_kept (uploaded_of id) (λ c. not (is_one_of ids c.upload_id)) db.chunks
      (λ c q. rw (of_id c q, k) refl),
)
  where
    first : (a b : Bool) → (a && b) ≡ true → a ≡ true
    first a b q = ground arith

    of_id : (c : Chunk) → uploaded_of id c ≡ true → c.upload_id ≡ id
    of_id c q =
        (text_eq_iff c.upload_id id).0 (first (text_eq c.upload_id id) (is_uploaded c.status) q)

pub unique_ids : (db : Db) → constraints_hold db ≡ true → distinct same_id db.uploads ≡ true
unfolding constraints_hold
unique_ids db h = ground arith

pub completed_is_not_stale :
    (c : Settings) (now : ℕ) (u : Upload) → u.status ≡ completed → is_stale c now u ≡ false
unfolding is_stale
completed_is_not_stale c now u h = ground (arith, h)

pub cleaned-StillThere :
    {St Q : Type 0} (v : Service St Q) (cascades : Bool) (now : ℕ) (db : Db) (id : Text)
    (u : Upload)
    → distinct same_id db.uploads ≡ true
    → find (has_id id) db.uploads ≡ some u
    → is_stale v.config now u ≡ false
    → StillThere id u db (cleaned v cascades now db)
unfolding delete_expired
cleaned-StillThere v cascades now db id u unique e fresh =
    delete_uploads-StillThere cascades (ids_of (select (is_stale v.config now) db.uploads)) id u db
      e ((text_eq_iff u.id id).0 (find-some _ _ _ e))
      (is_one_of-other (is_stale v.config now) u id db.uploads unique e fresh)

-- Whether the database cascades or not: a completed upload is there after a cleanup as it was, with
-- as many uploaded chunks, if the unique constraints hold before.
pub cleanup_once-StillThere :
    {St Q : Type 0} (v : Service St Q) (cascades : Bool) (w : World St Q) (id : Text) (u : Upload)
    → w.session ≡ w.db
    → constraints_hold w.db ≡ true
    → find (has_id id) w.db.uploads ≡ some u
    → u.status ≡ completed
    → StillThere id u w.db (cleanup_once v cascades w).1.db
cleanup_once-StillThere v cascades w id u fresh h e done =
    elim (cleanup_once-effect v cascades w fresh) [
      | inl same ↦ rw same (e, refl)
      | inr c ↦ rw c (
          cleaned-StillThere v cascades w.now w.db id u (unique_ids w.db h) e
            (completed_is_not_stale v.config w.now u done))
    ]
