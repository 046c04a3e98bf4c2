-- ===== src/Uploads/Interleaved/Tables/CompleteSteps.antt =====
-- The steps of a request to complete keep the tables sound.
use distributed_file_service.Prelude.{
  ==_iff, Bool-cases, List, Option, [], arith, count, find, inl, inr, is_some, none, not, refl,
  some, ℕ, ◌&&◌, ◌==◌, ◌∷◌, ◌≡◌,
}
use distributed_file_service.Text.{Text, codes, text_eq_iff, truthy}
use distributed_file_service.Exec.{Outcome, ok, raised}
use distributed_file_service.Exec.Keeps.{Keeps-bind}
use distributed_file_service.Json.{str}
use distributed_file_service.Models.{
  Chunk, Db, Upload, completed, constraints_hold, is_completed, is_in_progress, is_initiated,
  uploaded_of,
}
use distributed_file_service.Models.Rows.{find-some}
use distributed_file_service.World.{AuthUser, Service, World, commit, fingerprint, open_session}
use distributed_file_service.Uploads.Access.Cases.{get_owned_cases}
use distributed_file_service.Uploads.Persist.Frame.{SameData, SameData-refl}
use distributed_file_service.Uploads.Complete.{
  CompleteUploadResponse, add_complete_request, check_file, complete_again, finish_multipart,
  has_key, mark_completed, mark_upload, or_empty,
}
use distributed_file_service.Uploads.Complete.Effect.{
  check_file-frame, complete_replay_cases, finish_multipart-frame,
}
use distributed_file_service.Uploads.Sound.{IsSound}
use distributed_file_service.Uploads.Download.Missing.{count-le-total}
use distributed_file_service.Uploads.Sound.Changes.{IsSound-add_complete_request}
use distributed_file_service.Uploads.Sound.Steps.{mark_completed-IsSound}
use distributed_file_service.Uploads.Interleaved.Completion.{
  CompletePhase, advance_complete, assemble, assembled, check_state, complete_answered,
  complete_phase, counted, listed, load_for_complete, loaded, next_phase,
}
use distributed_file_service.Uploads.Interleaved.Commits.{Found, Grows, Grows-same, update-kept}
use distributed_file_service.Uploads.Interleaved.Tables.{
  AllThere, LoadedUpload, PendingComplete, Stepped, Stepped-same,
}

Grows-add_complete_request :
    (key : Option Text) (id print : Text) (now : ℕ) (a b : Db)
    → Grows a b
    → Grows a (add_complete_request key id print now b)
Grows-add_complete_request none id print now a b g = g
Grows-add_complete_request (some []) id print now a b g = g
Grows-add_complete_request (some (k ∷ key)) id print now a b g = record {
  kept = g.kept;
  more = g.more;
}

Grows-refl : (a : Db) → Grows a a
Grows-refl a = Grows-same a a refl refl

-- A key remembered.
remember-Stepped :
    (key : Option Text) (id print : Text) (now : ℕ) (db : Db)
    → IsSound db
    → Stepped db (add_complete_request key id print now db)
remember-Stepped key id print now db h = record {
  sound = IsSound-add_complete_request key id print now db h;
  grows = Grows-add_complete_request key id print now db db (Grows-refl db);
}

-- An upload marked and a key remembered, when all its chunks were there at some time before.
mark-Stepped :
    (key : Option Text) (id print : Text) (now : ℕ) (u : Upload) (db : Db)
    → AllThere db id u
    → IsSound db
    → Stepped db (add_complete_request key u.id print now (mark_completed u.id now db))
mark-Stepped key id print now u db p h =
    let row = p.load.row in
    let found : Found u.id row db = rw p.load.own p.load.found in
    let there : count (uploaded_of u.id) db.chunks ≡ row.total_chunks = rw p.load.own (
      omega (
        arith,
        p.there,
        p.load.same_total,
        count-le-total id row.total_chunks db.chunks (h.rows id row p.load.found) h.unique_chunks,
      )) in
    record {
      sound =
          IsSound-add_complete_request key u.id print now (mark_completed u.id now db)
            (mark_completed-IsSound u.id now db row found there h);
      grows =
          Grows-add_complete_request key u.id print now db (mark_completed u.id now db) (record {
            kept =
                update-kept u.id (λ x. record x { status = completed; updated_at = now })
                  (λ x. refl) db.uploads (λ x. (refl, λ q. absurd (ground (arith, q))));
            more = λ j. omega arith;
          });
    }

module _ {St Q : Type 0} (v : Service St Q) (id : Text) (key : Option Text) where
  abbrev pub StepsComplete : World St Q → CompletePhase × World St Q → Type 0
  StepsComplete w p = Stepped w.db p.1.db × PendingComplete p.1.db id p.0

  complete_again-Stepped :
      (u : Upload) (print : Text) (w : World St Q)
      → w.session ≡ w.db
      → IsSound w.db
      → Stepped w.db (complete_again u print key w).1.db
  unfolding complete_again commit
  complete_again-Stepped u print w fresh h =
      elim (Bool-cases
        (truthy key && not (is_some (find (has_key (or_empty key)) w.session.complete_requests)))) [
          | inr old ↦ rw old (Stepped-same w.db w.db refl h)
          | inl new ↦
              rw new
                (elim (Bool-cases
                  (constraints_hold (add_complete_request key u.id print w.now w.session))) [
                    | inl c ↦ rw (c, fresh) (remember-Stepped key u.id print w.now w.db h)
                    | inr c ↦ rw c (Stepped-same w.db w.db refl h)
                  ])
        ]

  mark_upload-Stepped :
      (u : Upload) (print : Text) (w : World St Q)
      → w.session ≡ w.db
      → AllThere w.db id u
      → IsSound w.db
      → Stepped w.db (mark_upload u print key w).1.db
  unfolding mark_upload commit
  mark_upload-Stepped u print w fresh p h =
      elim (Bool-cases (
        constraints_hold
          (add_complete_request key u.id print w.now (mark_completed u.id w.now w.session)))) [
            | inl c ↦ rw (c, fresh) (mark-Stepped key id print w.now u w.db p h)
            | inr c ↦ rw c (Stepped-same w.db w.db refl h)
          ]

  check_state-Pending :
      (u : Upload) (w : World St Q)
      → LoadedUpload w.db id u
      → PendingComplete w.db id (check_state u w)
  unfolding check_state
  check_state-Pending u w p = elim (Bool-cases (is_initiated u.status)) [
    | inl e ↦ rw e tt
    | inr e ↦ rw e (elim (Bool-cases (not (is_in_progress u.status))) [
      | inl e₂ ↦ rw e₂ tt
      | inr e₂ ↦ rw e₂ (elim (Bool-cases (count (uploaded_of u.id) w.db.chunks == u.total_chunks)) [
        | inl e₃ ↦ rw e₃ (record {
          load = p;
          there =
              rw (← p.own) (
                omega (arith, (==_iff (count (uploaded_of u.id) w.db.chunks) u.total_chunks).0 e₃));
        })
        | inr e₃ ↦ rw e₃ tt
      ])
    ])
  ]

  pub assemble-frame :
      (u : Upload) (cs : List Chunk) (w : World St Q) → SameData w (assemble v u cs w).1
  unfolding assemble
  assemble-frame u cs w =
      (Keeps-bind (check_file v u.file_checksum_sha256 cs) (λ _. finish_multipart v u cs)
          (check_file-frame v _ cs) (λ _. finish_multipart-frame v u cs)).run
        w (SameData-refl w)

  next_phase-Steps :
      (u : Upload) (w : World St Q) (p : Outcome (Unit {0}) × World St Q)
      → SameData w p.1
      → AllThere w.db id u
      → IsSound w.db
      → StepsComplete w (next_phase (assembled u) p)
  next_phase-Steps u w (ok a, w₁) same p h = (Stepped-same w.db w₁.db same.db h, rw same.db p)
  next_phase-Steps u w (raised e, w₁) same p h = (Stepped-same w.db w₁.db same.db h, tt)

  loaded-Steps :
      (u : Upload) (w : World St Q)
      → LoadedUpload w.db id u
      → IsSound w.db
      → StepsComplete w (advance_complete v id key (loaded u) w)
  unfolding advance_complete
  loaded-Steps u w p h = elim (Bool-cases (is_completed u.status)) [
    | inl e ↦ rw e (
      complete_again-Stepped u (fingerprint v ((codes "upload_id", str id) ∷ [])) (open_session w)
          refl h,
      tt,
    )
    | inr e ↦ rw e (Stepped-same w.db w.db refl h, check_state-Pending u w p)
  ]

  pub advance_complete-Steps :
      (phase : CompletePhase) (w : World St Q)
      → PendingComplete w.db id phase
      → IsSound w.db
      → StepsComplete w (advance_complete v id key phase w)
  unfolding advance_complete
  advance_complete-Steps (loaded u) w p h = unfold advance_complete in loaded-Steps u w p h
  advance_complete-Steps (counted u) w p h = (Stepped-same w.db w.db refl h, p)
  advance_complete-Steps (listed u cs) w p h =
      next_phase-Steps u w (assemble v u cs w) (assemble-frame u cs w) p h
  advance_complete-Steps (assembled u) w p h = (
    mark_upload-Stepped u (fingerprint v ((codes "upload_id", str id) ∷ [])) (open_session w) refl p
        h,
    tt,
  )
  advance_complete-Steps (complete_answered o) w p h = (Stepped-same w.db w.db refl h, tt)

  -- A request that comes in writes nothing, and what it loaded is there.
  abbrev pub Loads :
      World St Q → Outcome (Upload × Option CompleteUploadResponse) × World St Q → Type 0
  Loads w p = (p.1.db ≡ w.db) × PendingComplete w.db id (complete_phase p.0)

  pub load-Loads :
      (user : AuthUser) (w : World St Q)
      → w.session ≡ w.db
      → Loads w (load_for_complete v id key user w)
  unfolding load_for_complete
  load-Loads user w fresh =
      get_owned_cases (Loads w) id user _ w
        (λ u found own.
          complete_replay_cases v id key (Loads w)
            (fingerprint v ((codes "upload_id", str id) ∷ [])) key user _ w
            (λ o. loads u (rw fresh at found) o) (λ e. (refl, tt)))
        (λ e. (refl, tt))
    where
      loads :
          (u : Upload)
          → Found id u w.db
          → (o : Option CompleteUploadResponse) → Loads w (ok (u, o), w)
      loads u found (some out) = (refl, tt)
      loads u found none = (
        refl,
        record {
          row = u;
          found = found;
          same_total = refl;
          own = (text_eq_iff u.id id).0 (find-some _ _ _ found);
        },
      )
