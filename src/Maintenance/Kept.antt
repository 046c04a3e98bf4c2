-- ===== src/Maintenance/Kept.antt =====
-- Requests on uploads and cleanups, one after another in any order: the five endpoints of uploads, and
-- `run_cleanup` of app/main.py or a round of the cleanup loop, each at a time of its own.
use distributed_file_service.Prelude.{
  ap, All, Bool, List, [], any, arith, distinct, false, find, inl, inr, refl, some, true, update, ℕ,
  ◌+◌, ◌∷◌, ◌≡◌, ◌≤◌, ◌⊎◌,
}
use distributed_file_service.Text.{Text, text_eq}
use distributed_file_service.Config.{Settings}
use distributed_file_service.Models.{Db, Upload, completed, has_id}
use distributed_file_service.World.{AuthUser, Service, World, open_session}
use distributed_file_service.Uploads.Init.Effect.{init_upload-effect}
use distributed_file_service.Uploads.ChunkUpload.Effect.{upload_chunk-effect}
use distributed_file_service.Uploads.Complete.Effect.{complete_upload-effect}
use distributed_file_service.Uploads.Download.Frame.{download-frame, missing_chunks-frame}
use distributed_file_service.Uploads.Serve.{
  Call, Request, chunk, complete, fetch, handle, init, missing, serve,
}
use distributed_file_service.Uploads.Serve.Lifecycle.{
  Advances, Advances-refl, Advances-trans, Kept, handle-Kept, uploads-add_complete_request,
}
use distributed_file_service.Maintenance.{cleanup_once, delete_expired, delete_uploads, is_stale}
use distributed_file_service.Maintenance.Effect.{cleaned, cleanup_once-effect}
use distributed_file_service.Maintenance.Completed.{
  cleaned-StillThere, completed_is_not_stale, same_id, unique_ids,
}
use distributed_file_service.Maintenance.Sound.{distinct-select}

pub data Action : Type 0 where
  call : Call → Action
  cleanup : ℕ → Action

module _ {St Q : Type 0} where
  unfoldable pub act : Service St Q → Bool → Action → World St Q → World St Q
  act v cascades (call c) w = serve v c w
  act v cascades (cleanup time) w =
      (cleanup_once v cascades (open_session (record w { now = time }))).1

  unfoldable pub act_all : Service St Q → Bool → List Action → World St Q → World St Q
  act_all v cascades [] w = w
  act_all v cascades (a ∷ actions) w = act_all v cascades actions (act v cascades a w)

-- A cleanup does not take the upload: it was completed, or its time to live is not over.
abbrev pub Spares : Settings → Upload → Action → Type 0
Spares c u (call _) = Unit
Spares c u (cleanup time) =
    (u.status ≡ completed) ⊎ (time ≤ u.created_at + c.stale_upload_ttl_seconds)

abbrev UniqueIds : Db → Type 0
UniqueIds db = distinct same_id db.uploads ≡ true

any-update :
    (x : Upload) (p : Upload → Bool) (f : Upload → Upload) (us : List Upload)
    → ((u : Upload) → (f u).id ≡ u.id)
    → any (same_id x) (update p f us) ≡ any (same_id x) us
unfolding any update
any-update x p f [] h = refl
any-update x p f (u ∷ us) h = ground (arith, any-update x p f us h, h u)

any-same : (x y : Upload) (us : List Upload) → x.id ≡ y.id → any (same_id x) us ≡ any (same_id y) us
any-same x y us e = ap (λ i. any (λ u. text_eq i u.id) us) e

distinct-update :
    (p : Upload → Bool) (f : Upload → Upload) (us : List Upload)
    → ((u : Upload) → (f u).id ≡ u.id)
    → distinct same_id us ≡ true
    → distinct same_id (update p f us) ≡ true
unfolding distinct update
distinct-update p f [] h d = refl
distinct-update p f (u ∷ us) h d = ground (
  arith,
  distinct-update p f us h,
  any-update u p f us h,
  any-update (f u) p f us h,
  any-same (f u) u us (h u),
  d,
)

stays_completed : {u t : Upload} → u.status ≡ completed → Advances u t → t.status ≡ completed
stays_completed done p = ground (arith, done, p)

module _ {St Q : Type 0} (v : Service St Q) where
  handle-UniqueIds :
      (user : AuthUser) (q : Request) (w : World St Q)
      → w.session ≡ w.db
      → UniqueIds w.db
      → UniqueIds (handle v user q w).db
  unfolding handle
  handle-UniqueIds user (init i payload key) w fresh h =
      elim (init_upload-effect v i payload key user w fresh) [
        | inl same ↦ rw same h
        | inr c ↦ unique_ids _ c.consistent
      ]
  handle-UniqueIds user (chunk schedule r) w fresh h =
      elim (upload_chunk-effect v schedule r user w fresh) [
        | inl same ↦ rw same h
        | inr c ↦ unique_ids _ c.consistent
      ]
  handle-UniqueIds user (complete i key) w fresh h =
      elim (complete_upload-effect v i key w user fresh) [
        | inl same ↦ rw same h
        | inr (inl c) ↦ rw (c.recorded, uploads-add_complete_request key i c.print c.now _) h
        | inr (inr c) ↦
            rw (c.recorded, uploads-add_complete_request key i c.print c.now _)
              (distinct-update (has_id i) (λ x. record x { status = completed; updated_at = c.now })
                w.db.uploads (λ x. refl) h)
      ]
  handle-UniqueIds user (missing i) w fresh h = rw (missing_chunks-frame i user w) h
  handle-UniqueIds user (fetch i range) w fresh h = rw (download-frame v i range user w) h

  cleaned-UniqueIds :
      (cascades : Bool) (now : ℕ) (db : Db) → UniqueIds db → UniqueIds (cleaned v cascades now db)
  unfolding delete_expired delete_uploads
  cleaned-UniqueIds false now db h = distinct-select same_id _ db.uploads h
  cleaned-UniqueIds true now db h = distinct-select same_id _ db.uploads h

  act-UniqueIds :
      (cascades : Bool) (a : Action) (w : World St Q)
      → UniqueIds w.db
      → UniqueIds (act v cascades a w).db
  unfolding act serve
  act-UniqueIds cascades (call c) w h =
      handle-UniqueIds c.user c.request (open_session (record w { now = c.time })) refl h
  act-UniqueIds cascades (cleanup time) w h =
      elim (cleanup_once-effect v cascades (open_session (record w { now = time })) refl) [
        | inl same ↦ rw same h
        | inr c ↦ rw c (cleaned-UniqueIds cascades time w.db h)
      ]

  spared_is_not_stale :
      (time : ℕ) (u : Upload) → Spares v.config u (cleanup time) → is_stale v.config time u ≡ false
  unfolding is_stale
  spared_is_not_stale time u (inl done) = completed_is_not_stale v.config time u done
  spared_is_not_stale time u (inr young) = ground (arith, young)

  act-Kept :
      (cascades : Bool) (a : Action) (w : World St Q) (id : Text) (u : Upload)
      → UniqueIds w.db
      → find (has_id id) w.db.uploads ≡ some u
      → Spares v.config u a
      → Kept id u (act v cascades a w).db
  unfolding act serve
  act-Kept cascades (call c) w id u h e s =
      handle-Kept v c.user c.request (open_session (record w { now = c.time })) id u refl e
  act-Kept cascades (cleanup time) w id u h e s =
      elim (cleanup_once-effect v cascades (open_session (record w { now = time })) refl) [
        | inl same ↦ rw same (u, e, Advances-refl u)
        | inr c ↦ rw c (
          u,
          (cleaned-StillThere v cascades time w.db id u h e (spared_is_not_stale time u s)).0,
          Advances-refl u,
        )
      ]

  Spares-later :
      {u t : Upload} (a : Action) → Advances u t → Spares v.config u a → Spares v.config t a
  Spares-later (call c) p s = tt
  Spares-later (cleanup time) p (inl done) = inl (stays_completed done p)
  Spares-later (cleanup time) p (inr young) = inr (ground (arith, p, young))

  all_later :
      {u t : Upload} (actions : List Action)
      → Advances u t
      → All (Spares v.config u) actions
      → All (Spares v.config t) actions
  all_later [] p h = tt
  all_later (a ∷ actions) p (s, h) = (Spares-later a p s, all_later actions p h)

  -- Whatever requests on uploads and cleanups follow, in whatever order and at whatever times, if the
  -- ids of the uploads are distinct and no cleanup comes later than the upload's creation and its
  -- time to live together unless it was completed: the upload stays there under its id, with its
  -- owner, its announced name, sizes, number of chunks, checksum and creation time, and its status never goes back in
  -- the order INITIATED, IN_PROGRESS, COMPLETED, and does not become FAILED or ABORTED. The database
  -- may cascade or not.
  pub act_all-Kept :
      (cascades : Bool) (actions : List Action) (w : World St Q) (id : Text) (u : Upload)
      → distinct same_id w.db.uploads ≡ true
      → find (has_id id) w.db.uploads ≡ some u
      → All (Spares v.config u) actions
      → Kept id u (act_all v cascades actions w).db
  unfolding act_all
  act_all-Kept cascades [] w id u h e s = (u, e, Advances-refl u)
  act_all-Kept cascades (a ∷ actions) w id u h e (s, later) =
      let (t, n, p) = act-Kept cascades a w id u h e s in
      let (z, m, q) =
        act_all-Kept cascades actions (act v cascades a w) id t (act-UniqueIds cascades a w h) n
          (all_later actions p later) in
      (z, m, Advances-trans p q)
