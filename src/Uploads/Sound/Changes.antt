-- ===== src/Uploads/Sound/Changes.antt =====
-- Changes that the invariant does not see, and an upload found after a change of one row.
use distributed_file_service.Prelude.{
  Bool-cases, List, Option, Option-cases, [], arith, find, inl, inr, none, refl, some, sym, update,
  ℕ, ◌∙◌, ◌∷◌, ◌≡◌, ◌≢◌,
}
use distributed_file_service.Text.{Text, text_eq, text_eq_iff}
use distributed_file_service.Models.{Db, Upload, has_id}
use distributed_file_service.Models.Rows.{find-update_upload}
use distributed_file_service.Uploads.Init.{add_init_request}
use distributed_file_service.Uploads.Persist.{ChunkWrite}
use distributed_file_service.Uploads.ChunkUpload.{add_chunk_request}
use distributed_file_service.Uploads.Complete.{add_complete_request}
use distributed_file_service.Uploads.Sound.{IsSound}

-- Tables with the same uploads and chunks.
pub IsSound-same : (a b : Db) → b.uploads ≡ a.uploads → b.chunks ≡ a.chunks → IsSound a → IsSound b
IsSound-same a b u c h = record {
  complete = rw (u, c) h.complete;
  rows = rw (u, c) h.rows;
  no_orphan = rw (u, c) h.no_orphan;
  initial = rw (u, c) h.initial;
  unique_chunks = rw c h.unique_chunks;
}

pub IsSound-add_complete_request :
    (key : Option Text) (id print : Text) (now : ℕ) (db : Db)
    → IsSound db
    → IsSound (add_complete_request key id print now db)
IsSound-add_complete_request none id print now db h = h
IsSound-add_complete_request (some []) id print now db h = h
IsSound-add_complete_request (some (c ∷ key)) id print now db h = IsSound-same db _ refl refl h

pub IsSound-add_chunk_request :
    (key : Option Text) (c : ChunkWrite) (print : Text) (now : ℕ) (db : Db)
    → IsSound db
    → IsSound (add_chunk_request key c print now db)
IsSound-add_chunk_request none c print now db h = h
IsSound-add_chunk_request (some []) c print now db h = h
IsSound-add_chunk_request (some (k ∷ key)) c print now db h = IsSound-same db _ refl refl h

pub IsSound-add_init_request :
    (key : Option Text) (id print : Text) (now : ℕ) (db : Db)
    → IsSound db
    → IsSound (add_init_request key id print now db)
IsSound-add_init_request none id print now db h = h
IsSound-add_init_request (some []) id print now db h = h
IsSound-add_init_request (some (c ∷ key)) id print now db h = IsSound-same db _ refl refl h

-- The row of an upload after a change of one row, by its id.
pub found_after :
    {P : Type 0} (i j : Text) (f : Upload → Upload) (us : List Upload) (u : Upload)
    → ((x : Upload) → (f x).id ≡ x.id)
    → find (has_id j) (update (has_id i) f us) ≡ some u
    → (i ≡ j → (x : Upload) → find (has_id j) us ≡ some x → u ≡ f x → P)
    → (i ≢ j → find (has_id j) us ≡ some u → P)
    → P
found_after i j f us u h e here there = elim (Bool-cases (text_eq i j)) [
  | inr k ↦
      there (λ q. ground (arith, k, text_eq_iff i j, q))
        (rw k at (sym (find-update_upload i j f us h) ∙ e))
  | inl k ↦ elim (Option-cases (find (has_id j) us)) [
    | inl n ↦ absurd (ground (arith, find-update_upload i j f us h, k, n, e))
    | inr (x, n) ↦
        here ((text_eq_iff i j).0 k) x n (ground (arith, find-update_upload i j f us h, k, n, e))
  ]
]

pub none_after :
    (i j : Text) (f : Upload → Upload) (us : List Upload)
    → ((x : Upload) → (f x).id ≡ x.id)
    → find (has_id j) (update (has_id i) f us) ≡ none
    → find (has_id j) us ≡ none
none_after i j f us h e = ground (arith, find-update_upload i j f us h, e)
