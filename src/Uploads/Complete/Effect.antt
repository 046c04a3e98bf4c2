-- ===== src/Uploads/Complete/Effect.antt =====
-- What `complete_upload` does to the database, on every branch.
use distributed_file_service.Prelude.{
  Bool-cases, List, Option, [], count, eq_of_test, find, inl, inr, is_some, none, not, refl, some,
  subst, ℕ, ◌&&◌, ◌∙◌, ◌∷◌, ◌≡◌, ◌⊎◌,
}
use distributed_file_service.Text.{Text, text_eq_iff, truthy}
use distributed_file_service.Exec.{Error, Exec, Outcome, ok, pure, raised, ◌>>=◌}
use distributed_file_service.Exec.Keeps.{
  Keeps, Keeps-bind, Keeps-catch, Keeps-if, Keeps-pure, Keeps-raise, Keeps-raise_if,
}
use distributed_file_service.Exec.Cases.{bind_cases, raise_if_cases}
use distributed_file_service.Config.{is_s3_compatible}
use distributed_file_service.Models.{
  Chunk, Db, Upload, completed, constraints_hold, has_id, in_progress, is_completed, is_in_progress,
  is_initiated, uploaded_of,
}
use distributed_file_service.Models.Rows.{find-some, is_completed_lem, is_in_progress_lem}
use distributed_file_service.World.{AuthUser, Service, World, commit, or_run}
use distributed_file_service.Uploads.Access.Cases.{get_owned_cases}
use distributed_file_service.Uploads.Persist.Frame.{
  Keeps-in_store, Keeps-or_raise, SameData, SameData-refl, SameData-trans, frame_rules,
}
use distributed_file_service.Uploads.Complete.{
  CompleteUploadResponse, add_complete_request, check_file, chunks_of, complete_again,
  complete_by_state, complete_fresh, complete_now, complete_replay, complete_upload,
  finish_multipart, has_key, mark_completed, mark_upload, missing_error, missing_etag, or_empty,
  parts_of, read_all, replay_complete_request, send_parts, still_initiated, wrong_state,
}
use distributed_file_service.Uploads.ChunkUpload.Checks.{outcome_cases}

-- The upload was completed: what held before, and what was written.
pub record Completed (upload_id : Text) (key : Option Text) (before after : Db) : Type 0 where
  pub upload : Upload
  pub found : find (has_id upload_id) before.uploads ≡ some upload
  pub was_in_progress : upload.status ≡ in_progress
  pub all_there : count (uploaded_of upload_id) before.chunks ≡ upload.total_chunks
  pub print : Text
  pub now : ℕ
  pub recorded :
      after ≡ add_complete_request key upload_id print now (mark_completed upload_id now before)

-- Only the row of an idempotency key was added, for an upload that was completed before.
pub record Remembered (upload_id : Text) (key : Option Text) (before after : Db) : Type 0 where
  pub upload : Upload
  pub found : find (has_id upload_id) before.uploads ≡ some upload
  pub was_completed : upload.status ≡ completed
  pub print : Text
  pub now : ℕ
  pub recorded : after ≡ add_complete_request key upload_id print now before

module _ {St Q : Type 0} {w₀ : World St Q} where
  read_all-frame : (v : Service St Q) (cs : List Chunk) → Keeps (SameData w₀) (read_all v cs)
  unfolding read_all
  read_all-frame v [] = search frame_rules
  read_all-frame v (c ∷ cs) =
      Keeps-bind _ _ (Keeps-in_store _)
        λ _. Keeps-bind _ _ (read_all-frame v cs) (λ _. Keeps-pure _)

  pub check_file-frame :
      (v : Service St Q) (o : Option Text) (cs : List Chunk)
      → Keeps (SameData w₀) (check_file v o cs)
  unfolding check_file
  check_file-frame v none cs = search frame_rules
  check_file-frame v (some []) cs = search frame_rules
  check_file-frame v (some (c ∷ s)) cs =
      Keeps-bind _ _ (read_all-frame v cs) (λ _. Keeps-raise_if _ _)

  send_parts-frame :
      (v : Service St Q) (u : Upload) (cs : List Chunk) → Keeps (SameData w₀) (send_parts v u cs)
  unfolding send_parts
  send_parts-frame v u cs =
      Keeps-bind _ _ (Keeps-or_raise (parts_of cs) missing_etag)
        λ parts. Keeps-catch _ _ (Keeps-in_store _) (λ e. Keeps-raise _)

  pub finish_multipart-frame :
      (v : Service St Q) (u : Upload) (cs : List Chunk)
      → Keeps (SameData w₀) (finish_multipart v u cs)
  unfolding finish_multipart
  finish_multipart-frame v u cs =
      Keeps-if (is_s3_compatible v.config && truthy u.multipart_upload_id) (send_parts v u cs)
        (pure tt) (λ _. send_parts-frame v u cs) (λ _. Keeps-pure tt)

module _ {St Q : Type 0} (v : Service St Q) (upload_id : Text) (key : Option Text) where
  abbrev pub CompleteEffect : World St Q → Outcome CompleteUploadResponse × World St Q → Type 0
  CompleteEffect w p =
      (p.1.db ≡ w.db) ⊎ (Remembered upload_id key w.db p.1.db ⊎ Completed upload_id key w.db p.1.db)

  Keeps-at :
      {A : Type 0} (m : Exec (World St Q) A) (w w' : World St Q) (o : Outcome A)
      → Keeps (SameData w) m
      → m w ≡ (o, w')
      → SameData w w'
  Keeps-at {A} m w w' o k e =
      subst (λ (p : Outcome A × World St Q). SameData w p.1) e (k.run w (SameData-refl w))

  mark_upload-effect :
      (w w₂ : World St Q) (u : Upload) (print : Text)
      → w.session ≡ w.db
      → find (has_id upload_id) w.session.uploads ≡ some u
      → u.status ≡ in_progress
      → count (uploaded_of u.id) w.session.chunks ≡ u.total_chunks
      → SameData w w₂
      → CompleteEffect w (mark_upload u print key w₂)
  unfolding mark_upload commit
  mark_upload-effect w w₂ u print fresh found busy there same =
      let id : u.id ≡ upload_id = (text_eq_iff u.id upload_id).0 (find-some _ _ _ found) in
      elim (Bool-cases (
        constraints_hold
          (add_complete_request key u.id print w₂.now (mark_completed u.id w₂.now w₂.session)))) [
            | inl c ↦ rw c (
                inr (
                  inr (record {
                    upload = u;
                    found = rw fresh at found;
                    was_in_progress = busy;
                    all_there = rw (← fresh, ← id) there;
                    print = print;
                    now = w₂.now;
                    recorded = rw (same.session, fresh, id);
                  })))
            | inr c ↦ rw c (inl same.db)
          ]

  complete_now-effect :
      (w : World St Q) (u : Upload) (print : Text)
      → w.session ≡ w.db
      → find (has_id upload_id) w.session.uploads ≡ some u
      → u.status ≡ in_progress
      → CompleteEffect w (complete_now v u print key w)
  unfolding complete_now
  complete_now-effect w u print fresh found busy =
      raise_if_cases (CompleteEffect w) _ missing_error _ w
        (λ there.
          bind_cases (CompleteEffect w)
            (check_file v u.file_checksum_sha256 (chunks_of u.id w.session)) _ w
            (λ _ w₁ e₁.
              bind_cases (CompleteEffect w) (finish_multipart v u (chunks_of u.id w.session)) _ w₁
                (λ _ w₂ e₂.
                  mark_upload-effect w w₂ u print fresh found busy (eq_of_test _ _ there) (
                    SameData-trans (Keeps-at _ w w₁ (ok tt) (check_file-frame v _ _) e₁)
                      (Keeps-at _ w₁ w₂ (ok tt) (finish_multipart-frame v u _) e₂)))
                (λ x w₂ e₂. inl (
                  (Keeps-at _ w₁ w₂ (raised x) (finish_multipart-frame v u _) e₂).db
                  ∙ (Keeps-at _ w w₁ (ok tt) (check_file-frame v _ _) e₁).db)))
            (λ x w₁ e₁. inl (Keeps-at _ w w₁ (raised x) (check_file-frame v _ _) e₁).db))
        (λ _. inl refl)

  complete_again-effect :
      (w : World St Q) (u : Upload) (print : Text)
      → w.session ≡ w.db
      → find (has_id upload_id) w.session.uploads ≡ some u
      → u.status ≡ completed
      → CompleteEffect w (complete_again u print key w)
  unfolding complete_again commit
  complete_again-effect w u print fresh found done =
      let id : u.id ≡ upload_id = (text_eq_iff u.id upload_id).0 (find-some _ _ _ found) in
      elim (Bool-cases
        (truthy key && not (is_some (find (has_key (or_empty key)) w.session.complete_requests)))) [
          | inr old ↦ rw old (inl refl)
          | inl new ↦
              rw new
                (elim (Bool-cases
                  (constraints_hold (add_complete_request key u.id print w.now w.session))) [
                    | inl c ↦ rw c (
                        inr (
                          inl (record {
                            upload = u;
                            found = rw fresh at found;
                            was_completed = done;
                            print = print;
                            now = w.now;
                            recorded = rw (id, fresh);
                          })))
                    | inr c ↦ rw c (inl refl)
                  ])
        ]

  pub complete_replay_cases :
      {B : Type 0} (R : Outcome B × World St Q → Type 0) (print : Text) (k : Option Text)
      (user : AuthUser) (f : Option CompleteUploadResponse → Exec (World St Q) B) (w : World St Q)
      → ((o : Option CompleteUploadResponse) → R (f o w))
      → ((e : Error) → R (raised e, w))
      → R ((complete_replay print upload_id k user >>= f) w)
  unfolding complete_replay
  complete_replay_cases R print none user f w go_on stop = go_on none
  complete_replay_cases R print (some []) user f w go_on stop = go_on none
  complete_replay_cases R print (some (c ∷ k)) user f w go_on stop =
      outcome_cases R
        (replay_complete_request print upload_id user w.session
          (find (has_key (c ∷ k)) w.session.complete_requests))
        f w (λ o _. go_on o) stop

  by_state-effect :
      (w : World St Q) (u : Upload) (print : Text)
      → w.session ≡ w.db
      → find (has_id upload_id) w.session.uploads ≡ some u
      → CompleteEffect w (complete_by_state v u print key w)
  unfolding complete_by_state
  by_state-effect w u print fresh found = elim (Bool-cases (is_completed u.status)) [
    | inl done ↦
        rw done (complete_again-effect w u print fresh found (is_completed_lem u.status done))
    | inr still ↦ rw still (
        raise_if_cases (CompleteEffect w) (not (is_in_progress u.status)) wrong_state
          (λ _. complete_now v u print key) w
          (λ busy. complete_now-effect w u print fresh found (is_in_progress_lem u.status busy))
          (λ _. inl refl))
  ]

  or_complete :
      (replay : Option CompleteUploadResponse) (w : World St Q) (u : Upload) (print : Text)
      → w.session ≡ w.db
      → find (has_id upload_id) w.session.uploads ≡ some u
      → CompleteEffect w (or_run replay (complete_fresh v u print key) w)
  unfolding complete_fresh
  or_complete (some response) w u print fresh found = inl refl
  or_complete none w u print fresh found =
      raise_if_cases (CompleteEffect w) (is_initiated u.status) still_initiated
        (λ _. complete_by_state v u print key) w (λ _. by_state-effect w u print fresh found)
        (λ _. inl refl)

  pub complete_upload-effect :
      (w : World St Q) (user : AuthUser)
      → w.session ≡ w.db
      → CompleteEffect w (complete_upload v upload_id key user w)
  unfolding complete_upload
  complete_upload-effect w user fresh =
      get_owned_cases (CompleteEffect w) upload_id user _ w
        (λ u found owner.
          complete_replay_cases (CompleteEffect w) _ key user _ w
            (λ replay. or_complete replay w u _ fresh found) (λ e. inl refl))
        (λ e. inl refl)
