-- ===== src/Maintenance/Effect.antt =====
-- What a cleanup does to the database.
use distributed_file_service.Prelude.{
  Bool, Bool-cases, List, [], inl, inr, refl, select, subst, ℕ, ◌+◌, ◌∙◌, ◌∷◌, ◌≡◌, ◌⊎◌,
}
use distributed_file_service.Text.{Text}
use distributed_file_service.Text.{codes}
use distributed_file_service.Exec.{Exec, Outcome, ok, raised}
use distributed_file_service.Exec.Keeps.{Keeps, Keeps-bind, Keeps-catch, Keeps-pure}
use distributed_file_service.Exec.Cases.{bind_cases}
use distributed_file_service.Models.{Db, constraints_hold}
use distributed_file_service.World.{Service, World, commit}
use distributed_file_service.Uploads.Persist.Frame.{Keeps-in_store, SameData, SameData-refl}
use distributed_file_service.Maintenance.{
  CleanupReport, cleanup_once, delete_all, delete_expired, delete_one, delete_uploads, ids_of,
  is_stale, orphans, stale_keys, referenced_keys, sweep,
}

module _ {St Q : Type 0} {w₀ : World St Q} (v : Service St Q) where
  delete_one-frame : (key : Text) → Keeps (SameData w₀) (delete_one v key)
  unfolding delete_one
  delete_one-frame key =
      Keeps-catch _ _
        (Keeps-bind _ _ (Keeps-in_store (v.storage.delete_key key)) (λ _. Keeps-pure 1))
        (λ _. Keeps-pure 0)

  delete_all-frame : (keys : List Text) → Keeps (SameData w₀) (delete_all v keys)
  unfolding delete_all
  delete_all-frame [] = Keeps-pure 0
  delete_all-frame (key ∷ keys) =
      Keeps-bind _ _ (delete_one-frame key)
        λ n. Keeps-bind _ _ (delete_all-frame keys) (λ m. Keeps-pure (n + m))

  sweep-frame : (referenced : List Text) → Keeps (SameData w₀) (sweep v referenced)
  unfolding sweep
  sweep-frame referenced =
      Keeps-catch _ _
        (Keeps-bind _ _ (Keeps-in_store (v.storage.list_keys (codes "uploads/")))
          (λ keys. delete_all-frame (orphans referenced keys)))
        (λ _. Keeps-pure 0)

-- The tables that a cleanup at the time `now` leaves.
abbrev pub cleaned : {St Q : Type 0} → Service St Q → Bool → ℕ → Db → Db
cleaned v cascades now db =
    delete_expired v.config now
      (delete_uploads cascades (ids_of (select (is_stale v.config now) db.uploads)) db)

module _ {St Q : Type 0} (v : Service St Q) (cascades : Bool) where
  -- Either the committed database is as it was, or it is cleaned.
  abbrev pub CleanupEffect : World St Q → Outcome CleanupReport × World St Q → Type 0
  CleanupEffect w p = (p.1.db ≡ w.db) ⊎ (p.1.db ≡ cleaned v cascades w.now w.db)

  same_data :
      {A : Type 0} (m : Exec (World St Q) A) (w w' : World St Q) (o : Outcome A)
      → Keeps (SameData w) m
      → m w ≡ (o, w')
      → SameData w w'
  same_data {A} m w w' o k e =
      subst (λ (p : Outcome A × World St Q). SameData w p.1) e (k.run w (SameData-refl w))

  -- A cleanup leaves the committed database as it was, or without exactly the stale uploads, what
  -- refers to them if the database cascades, and the expired idempotency rows.
  pub cleanup_once-effect :
      (w : World St Q) → w.session ≡ w.db → CleanupEffect w (cleanup_once v cascades w)
  unfolding cleanup_once commit
  cleanup_once-effect w fresh =
      let stale = select (is_stale v.config w.now) w.session.uploads in
      let keys = stale_keys v.config w.session stale in
      bind_cases (CleanupEffect w) (delete_all v keys) _ w
        (λ n w₁ e₁.
          let a = same_data (delete_all v keys) w w₁ (ok n) (delete_all-frame v keys) e₁ in
          let db₂ =
            delete_expired v.config w.now (delete_uploads cascades (ids_of stale) w₁.session) in
          let w₂ = record w₁ { session = db₂ } in
          let refs = referenced_keys v.config db₂ in
          bind_cases (CleanupEffect w) (sweep v refs) _ w₂
            (λ m w₃ e₃.
              let b = same_data (sweep v refs) w₂ w₃ (ok m) (sweep-frame v refs) e₃ in
              elim (Bool-cases (constraints_hold w₃.session)) [
                | inl c ↦ rw c (inr (rw (b.session, a.session, fresh) refl))
                | inr c ↦ rw c (inl (b.db ∙ a.db))
              ])
            (λ x w₃ e₃.
              inl ((same_data (sweep v refs) w₂ w₃ (raised x) (sweep-frame v refs) e₃).db ∙ a.db)))
        (λ x w₁ e₁.
          inl (same_data (delete_all v keys) w w₁ (raised x) (delete_all-frame v keys) e₁).db)
