-- ===== src/Uploads/Download/Frame.antt =====
-- The reading requests change no table.
use distributed_file_service.Prelude.{
  List, Option, [], length, none, not, refl, some, ℕ, ◌==◌, ◌∷◌, ◌≡◌,
}
use distributed_file_service.Text.{Text}
use distributed_file_service.Exec.{Outcome, ok, raised}
use distributed_file_service.Exec.Cases.{raise_if_cases}
use distributed_file_service.Models.{Chunk, Upload, is_completed}
use distributed_file_service.Range.{parse_range}
use distributed_file_service.World.{AuthUser, Service, World}
use distributed_file_service.Uploads.Access.Cases.{get_owned_cases}
use distributed_file_service.Uploads.Complete.{chunks_of}
use distributed_file_service.Uploads.Download.{
  download, inconsistent, missing_chunks, not_completed, range_response, respond, whole_response,
}

module _ {St Q : Type 0} where
  pub missing_chunks-frame :
      (id : Text) (user : AuthUser) (w : World St Q) → (missing_chunks id user w).1.db ≡ w.db
  unfolding missing_chunks
  missing_chunks-frame id user w =
      get_owned_cases (λ p. p.1.db ≡ w.db) id user _ w (λ u found owner. refl) (λ e. refl)

  range_response-frame :
      (v : Service St Q) (u : Upload) (cs : List Chunk) (o : Outcome (ℕ × ℕ)) (w : World St Q)
      → (range_response v u cs o w).1.db ≡ w.db
  unfolding range_response
  range_response-frame v u cs (ok (start, end)) w = refl
  range_response-frame v u cs (raised e) w = refl

  respond-frame :
      (v : Service St Q) (u : Upload) (cs : List Chunk) (range : Option Text) (w : World St Q)
      → (respond v u cs range w).1.db ≡ w.db
  unfolding respond whole_response
  respond-frame v u cs none w = refl
  respond-frame v u cs (some []) w = refl
  respond-frame v u cs (some (c ∷ range)) w =
      range_response-frame v u cs (parse_range (c ∷ range) u.file_size) w

  pub download-frame :
      (v : Service St Q) (id : Text) (range : Option Text) (user : AuthUser) (w : World St Q)
      → (download v id range user w).1.db ≡ w.db
  unfolding download
  download-frame v id range user w =
      get_owned_cases (λ p. p.1.db ≡ w.db) id user _ w
        (λ u found owner.
          raise_if_cases (λ p. p.1.db ≡ w.db) (not (is_completed u.status)) not_completed _ w
            (λ done.
              raise_if_cases (λ p. p.1.db ≡ w.db)
                (not (length (chunks_of id w.session) == u.total_chunks)) inconsistent _ w
                (λ same. respond-frame v u (chunks_of id w.session) range _) (λ e. refl))
            (λ e. refl))
        (λ e. refl)
