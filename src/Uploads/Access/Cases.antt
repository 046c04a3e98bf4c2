-- ===== src/Uploads/Access/Cases.antt =====
-- Every handler on an upload begins with `_get_owned_upload`: it goes on with the upload of that id
-- and owner, or raises and changes nothing.
use distributed_file_service.Prelude.{
  Bool-cases, Option, find, inl, inr, none, refl, some, ◌≡◌, ◌≢◌,
}
use distributed_file_service.Text.{Text, text_eq, text_eq_iff}
use distributed_file_service.Exec.{Error, Exec, Outcome, raised, ◌>>=◌}
use distributed_file_service.Models.{Upload, has_id}
use distributed_file_service.World.{AuthUser, World}
use distributed_file_service.Uploads.Access.{
  check_owner, forbidden_owner, get_owned_upload, upload_not_found,
}

module _ {St Q B : Type 0} where
  owner_cases :
      (R : Outcome B × World St Q → Type 0) (user : AuthUser) (o : Option Upload)
      (f : Upload → Exec (World St Q) B) (w : World St Q)
      → ((u : Upload) → o ≡ some u → u.owner_id ≡ user.user_id → R (f u w))
      → ((e : Error) → R (raised e, w))
      → R ((check_owner user o >>= f) w)
  unfolding check_owner
  owner_cases R user none f w go_on stop = stop upload_not_found
  owner_cases R user (some u) f w go_on stop = elim (Bool-cases (text_eq u.owner_id user.user_id)) [
    | inl e ↦ rw e (go_on u refl ((text_eq_iff u.owner_id user.user_id).0 e))
    | inr e ↦ rw e (stop forbidden_owner)
  ]

  pub get_owned_cases :
      (R : Outcome B × World St Q → Type 0) (id : Text) (user : AuthUser)
      (f : Upload → Exec (World St Q) B) (w : World St Q)
      → ((u : Upload)
          → find (has_id id) w.session.uploads ≡ some u
          → u.owner_id ≡ user.user_id
          → R (f u w))
      → ((e : Error) → R (raised e, w))
      → R ((get_owned_upload id user >>= f) w)
  unfolding get_owned_upload
  get_owned_cases R id user f w go_on stop =
      owner_cases R user (find (has_id id) w.session.uploads) f w go_on stop

  -- For an upload of the user the request goes on.
  pub get_owned_own :
      (id : Text) (user : AuthUser) (f : Upload → Exec (World St Q) B) (w : World St Q) (u : Upload)
      → find (has_id id) w.session.uploads ≡ some u
      → u.owner_id ≡ user.user_id
      → (get_owned_upload id user >>= f) w ≡ f u w
  unfolding get_owned_upload check_owner
  get_owned_own id user f w u found own =
      rw (found, check_owner, (text_eq_iff u.owner_id user.user_id).1 own)

  -- For an upload of another owner the request is refused, before anything else.
  pub get_owned_other :
      (id : Text) (user : AuthUser) (f : Upload → Exec (World St Q) B) (w : World St Q) (u : Upload)
      → find (has_id id) w.session.uploads ≡ some u
      → u.owner_id ≢ user.user_id
      → (get_owned_upload id user >>= f) w ≡ (raised forbidden_owner, w)
  unfolding get_owned_upload check_owner
  get_owned_other id user f w u found other = elim (Bool-cases (text_eq u.owner_id user.user_id)) [
    | inl e ↦ absurd (other ((text_eq_iff u.owner_id user.user_id).0 e))
    | inr e ↦ rw (found, check_owner, e)
  ]
