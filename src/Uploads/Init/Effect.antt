-- ===== src/Uploads/Init/Effect.antt =====
-- What `init_upload` does to the database, on every branch.
use distributed_file_service.Prelude.{
  Bool-cases, Option, [], arith, find, if◌then◌else◌, inl, inr, none, refl, some, true, ℕ, ◌++◌,
  ◌<◌, ◌==◌, ◌∷◌, ◌≡◌, ◌⊎◌,
}
use distributed_file_service.Text.{Text, text_eq}
use distributed_file_service.Exec.{
  Error, Exec, Outcome, ok, pure, raise_if, raised, unhandled, ◌>>=◌, ◌>>◌,
}
use distributed_file_service.Exec.Cases.{raise_if_cases, run_cases}
use distributed_file_service.Models.{Db, Upload, constraints_hold}
use distributed_file_service.World.{AuthUser, Service, World, commit, flush, or_run}
use distributed_file_service.Uploads.Init.{
  InitUploadRequest, InitUploadResponse, add_init_request, chunk_size_of, create_upload,
  init_fingerprint, init_replay, init_upload, new_upload, replay_request, set_multipart,
  start_multipart, use_multipart,
}
use distributed_file_service.Uploads.ChunkUpload.Checks.{outcome_cases}

-- The id of a multipart upload is written, if one was begun.
abbrev pub set_if : Option (Option Text) → Text → Db → Db
set_if none id db = db
set_if (some multipart) id db = set_multipart id multipart db

abbrev pub add_upload : Upload → Db → Db
add_upload u db = record db { uploads = db.uploads ++ u ∷ [] }

-- What the storage answered, if it did not fail.
begun : {St : Type 0} → Outcome (Option Text) × St → Option (Option Text)
begun (ok id, s) = some id
begun (raised e, s) = none

-- The multipart id that the storage, in the state `store`, gives an upload for which it is asked.
pub multipart_of : {St Q : Type 0} → Service St Q → Upload → St → Option (Option Text)
multipart_of v u store =
    if use_multipart v.config u then begun (v.storage.initialize_upload u.id store) else none

-- A new upload was recorded at the time `now`, with the multipart id that the storage gave, and with
-- the row of its idempotency key.
pub record Created {St Q : Type 0} (v : Service St Q) (new_id : Text) (r : InitUploadRequest)
    (key : Option Text) (user : AuthUser) (store : St) (now : ℕ) (before after : Db) : Type 0 where
  pub chunk_size_pos : 0 < chunk_size_of v.config r
  pub recorded :
      after
      ≡ add_init_request key new_id (init_fingerprint v r) now (
          set_if
            (multipart_of v (new_upload v new_id r user now) store)
            new_id
            (add_upload (new_upload v new_id r user now) before))
  pub consistent : constraints_hold after ≡ true
  pub unique_ids : constraints_hold (add_upload (new_upload v new_id r user now) before) ≡ true

module _ {St Q : Type 0} (v : Service St Q) where
  start_cases :
      {B : Type 0} (R : Outcome B × World St Q → Type 0) (u : Upload)
      (f : Unit {0} → Exec (World St Q) B) (w : World St Q)
      → ((m : Option (Option Text)) (w' : World St Q)
          → m ≡ multipart_of v u w.store
          → w'.now ≡ w.now
          → w'.db ≡ w.db
          → w'.session ≡ set_if m u.id w.session
          → R (f tt w'))
      → ((e : Error) (w' : World St Q) → w'.db ≡ w.db → R (raised e, w'))
      → R (((if use_multipart v.config u then start_multipart v u else pure tt) >>= f) w)
  unfolding start_multipart multipart_of begun
  start_cases R u f w go_on stop = elim (Bool-cases (use_multipart v.config u)) [
    | inr single ↦ rw single (go_on none w (rw single refl) refl refl refl)
    | inl multi ↦ rw multi (elim (run_cases (v.storage.initialize_upload u.id w.store)) [
      | inl (id, s, e) ↦ rw e (go_on (some id) _ (rw (multi, e) refl) refl refl refl)
      | inr (x, s, e) ↦ rw e (stop _ _ refl)
    ])
  ]

module _ {St Q : Type 0} (v : Service St Q) (new_id : Text) (r : InitUploadRequest)
    (key : Option Text) (user : AuthUser) where
  -- Either the committed database is as it was, or the upload was created.
  abbrev pub InitEffect : World St Q → Outcome InitUploadResponse × World St Q → Type 0
  InitEffect w p = (p.1.db ≡ w.db) ⊎ Created v new_id r key user w.store w.now w.db p.1.db

  create_upload-effect :
      (w : World St Q)
      → w.session ≡ w.db
      → 0 < chunk_size_of v.config r
      → InitEffect w
          (create_upload v (new_upload v new_id r user w.now) (init_fingerprint v r) key w)
  unfolding create_upload flush commit
  create_upload-effect w fresh pos =
      elim (Bool-cases
        (constraints_hold (add_upload (new_upload v new_id r user w.now) w.session))) [
          | inr clash ↦ rw clash (inl refl)
          | inl unique ↦ rw unique (
              start_cases v (InitEffect w) (new_upload v new_id r user w.now) _ _
                (λ m w' multi same d s.
                  elim (Bool-cases (
                    constraints_hold
                      (add_init_request key new_id (init_fingerprint v r) w'.now w'.session))) [
                        | inr clash ↦ rw clash (inl d)
                        | inl c ↦ rw c (
                            inr (record {
                              chunk_size_pos = pos;
                              recorded = rw (s, fresh, same, multi);
                              consistent = c;
                              unique_ids = rw fresh at unique;
                            }))
                      ])
                (λ e w' d. inl d))
        ]

  init_replay_cases :
      {B : Type 0} (R : Outcome B × World St Q → Type 0) (print : Text) (k : Option Text)
      (f : Option InitUploadResponse → Exec (World St Q) B) (w : World St Q)
      → ((o : Option InitUploadResponse) → R (f o w))
      → ((e : Error) → R (raised e, w))
      → R ((init_replay print k user >>= f) w)
  unfolding init_replay
  init_replay_cases R print none f w go_on stop = go_on none
  init_replay_cases R print (some []) f w go_on stop = go_on none
  init_replay_cases R print (some (c ∷ k)) f w go_on stop =
      outcome_cases R
        (replay_request print user w.session
          (find (λ r. text_eq r.idempotency_key (c ∷ k)) w.session.init_requests))
        f w (λ o _. go_on o) stop

  or_create :
      (replay : Option InitUploadResponse) (w : World St Q)
      → w.session ≡ w.db
      → InitEffect w (
          or_run replay
            (do
              raise_if (chunk_size_of v.config r == 0) (unhandled "ZeroDivisionError")
              create_upload v (new_upload v new_id r user w.now) (init_fingerprint v r) key)
            w)
  or_create (some response) w fresh = inl refl
  or_create none w fresh =
      raise_if_cases (InitEffect w) (chunk_size_of v.config r == 0) (unhandled "ZeroDivisionError")
        (λ _. create_upload v (new_upload v new_id r user w.now) (init_fingerprint v r) key) w
        (λ h. create_upload-effect w fresh (ground arith)) (λ _. inl refl)

  pub init_upload-effect :
      (w : World St Q) → w.session ≡ w.db → InitEffect w (init_upload v new_id r key user w)
  unfolding init_upload
  init_upload-effect w fresh =
      init_replay_cases (InitEffect w) _ key _ w (λ replay. or_create replay w fresh)
        (λ e. inl refl)
