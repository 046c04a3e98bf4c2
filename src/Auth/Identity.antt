-- ===== src/Auth/Identity.antt =====
-- Who is let through by `require_api_user` of app/auth.py.
use distributed_file_service.Prelude.{
  Bool, Bool-cases, List, Option, [], arith, false, if◌then◌else◌, inl, inr, none, refl, some, sym,
  true, ℕ, ◌↔◌, ◌∙◌, ◌∷◌, ◌≡◌, ◌≢◌, ◌⊎◌,
}
use distributed_file_service.Text.{
  Text, codes, lower, split, text_eq, text_eq_iff, text_eq_refl, truthy,
}
use distributed_file_service.Text.Strip.{strip}
use distributed_file_service.Exec.{Outcome, ok, raised}
use distributed_file_service.Config.{Settings}
use distributed_file_service.World.{AuthUser}
use distributed_file_service.Auth.{
  JwtResult, allow, decode_token, decoded, invalid, is_blank, known_user, parse_api_key_mappings,
  parse_bearer_token, payload, resolve_from_api_key, resolve_from_jwt, subject_of, unsupported_mode,
  with_subject,
}
use distributed_file_service.Dict.{lookup}
use distributed_file_service.Auth.Require.{
  AuthState, Principal, admit, from_source, is_admin_id, is_listed, require_api_user,
  resolve_principal,
}

-- A principal has an id.
abbrev HasId : Outcome Principal → Type 0
HasId (raised e) = Unit
HasId (ok p) = p.user_id ≢ []

HasId-decoded :
    (source : Text) (r : JwtResult) (token : Text) → HasId (from_source source (decoded r token))
HasId-decoded source invalid token = tt
HasId-decoded source (payload sub user_id) token = go (strip (subject_of sub user_id))
  where
    go : (id : Text) → HasId (from_source source (with_subject id token))
    go [] = tt
    go (c ∷ id) = λ e. ground (arith, e)

HasId-jwt :
    (source : Text) (jwt_decode : Text → JwtResult) (c : Settings) (authorization : Option Text)
    → HasId (from_source source (resolve_from_jwt jwt_decode c authorization))
unfolding resolve_from_jwt
HasId-jwt source jwt_decode c authorization = elim (Bool-cases (is_blank c.jwt_secret)) [
  | inl e ↦ rw e tt
  | inr e ↦ rw e (go (parse_bearer_token authorization))
]
  where
    go : (o : Outcome Text) → HasId (from_source source (decode_token jwt_decode o))
    go (raised x) = tt
    go (ok token) = HasId-decoded source (jwt_decode token) token

HasId-key :
    (source : Text) (c : Settings) (x_api_key : Option Text)
    → HasId (from_source source (resolve_from_api_key c x_api_key))
unfolding resolve_from_api_key
HasId-key source c none = tt
HasId-key source c (some []) = tt
HasId-key source c (some (k ∷ key)) = go (lookup (k ∷ key) (parse_api_key_mappings c))
  where
    go : (o : Option Text) → HasId (from_source source (known_user o (k ∷ key)))
    go none = tt
    go (some []) = tt
    go (some (d ∷ id)) = λ e. ground (arith, e)

HasId-if : (b : Bool) (x y : Outcome Principal) → HasId x → HasId y → HasId (if b then x else y)
HasId-if true x y h k = h
HasId-if false x y h k = k

HasId-resolve_principal :
    (jwt_decode : Text → JwtResult) (c : Settings) (x_api_key authorization : Option Text)
    → HasId (resolve_principal jwt_decode c x_api_key authorization)
unfolding resolve_principal
HasId-resolve_principal jwt_decode c x_api_key authorization =
    let mode = strip (lower c.auth_mode) in
    let by_token = from_source (codes "jwt") (resolve_from_jwt jwt_decode c authorization) in
    let by_key = from_source (codes "api_key") (resolve_from_api_key c x_api_key) in
    let t = HasId-jwt (codes "jwt") jwt_decode c authorization in
    let k = HasId-key (codes "api_key") c x_api_key in
    let either = if truthy authorization then by_token else by_key in
    let last = if text_eq mode (codes "api_key") then by_key else raised unsupported_mode in
    HasId-if (text_eq mode (codes "jwt")) by_token
      (if text_eq mode (codes "hybrid") then either else last) t
      (HasId-if (text_eq mode (codes "hybrid")) either last
        (HasId-if (truthy authorization) by_token by_key t k)
        (HasId-if (text_eq mode (codes "api_key")) by_key (raised unsupported_mode) k tt))

-- The settings list the id: one of the pieces between the commas is the id, without the whitespace
-- around it.
abbrev pub Lists : List Text → Text → Type 0
Lists [] user_id = ⊥
Lists (item ∷ items) user_id = (strip item ≡ user_id) ⊎ Lists items user_id

not_blank : (s : Text) → s ≢ [] → is_blank s ≡ false
not_blank [] h = absurd (h refl)
not_blank (c ∷ s) h = refl

is_listed-Lists :
    (user_id : Text) (items : List Text) → is_listed user_id items ≡ true → Lists items user_id
unfolding is_listed
is_listed-Lists user_id [] h = ground (arith, h)
is_listed-Lists user_id (item ∷ items) h = elim (Bool-cases (text_eq (strip item) user_id)) [
  | inl e ↦ inl ((text_eq_iff (strip item) user_id).0 e)
  | inr e ↦ inr (is_listed-Lists user_id items (ground (arith, h, e)))
]

Lists-is_listed :
    (user_id : Text) (items : List Text)
    → user_id ≢ []
    → Lists items user_id
    → is_listed user_id items ≡ true
unfolding is_listed
Lists-is_listed user_id [] h k = absurd k
Lists-is_listed user_id (item ∷ items) h (inl e) =
    rw (e, not_blank user_id h, text_eq_refl user_id) refl
Lists-is_listed user_id (item ∷ items) h (inr k) = ground (arith, Lists-is_listed user_id items h k)

-- The id is not empty, and the user is an admin exactly when the settings list it.
abbrev pub IsIdentified : Settings → AuthUser → Type 0
IsIdentified c user =
    (user.user_id ≢ [])
    × ((user.is_admin ≡ true) ↔ Lists (split b',' c.admin_user_ids) user.user_id)

identified :
    (c : Settings) (user : AuthUser)
    → user.user_id ≢ []
    → user.is_admin ≡ is_admin_id c user.user_id
    → IsIdentified c user
unfolding is_admin_id
identified c user h e = (
  h,
  (
    λ k. is_listed-Lists user.user_id (split b',' c.admin_user_ids) (sym e ∙ k),
    λ k. e ∙ Lists-is_listed user.user_id (split b',' c.admin_user_ids) h k,
  ),
)

HasId-admit :
    (c : Settings) (minute now : ℕ) (o : Outcome Principal) (s : AuthState) (user : AuthUser)
    → HasId o
    → (admit c minute now o s).0 ≡ ok user
    → (user.user_id ≢ []) × (user.is_admin ≡ is_admin_id c user.user_id)
unfolding admit
HasId-admit c minute now (raised e) s user h k = absurd (ground (arith, k))
HasId-admit c minute now (ok p) s user h k =
    elim (Bool-cases ((allow p.rate_key c.api_rate_limit_per_minute minute now s.events).0)) [
      | inl e ↦ ground (arith, rw e at k, h)
      | inr e ↦ absurd (ground (arith, rw e at k))
    ]

-- In every mode, and whatever a token's claims or the configured mappings are, a request that is let
-- through is from a user whose id is not empty, and that user is an admin exactly when one of the
-- comma-separated pieces of `admin_user_ids`, stripped, is the id.
pub require_api_user-id :
    (jwt_decode : Text → JwtResult) (c : Settings) (minute now : ℕ)
    (x_api_key authorization : Option Text) (s : AuthState) (user : AuthUser)
    → (require_api_user jwt_decode c minute now x_api_key authorization s).0 ≡ ok user
    → IsIdentified c user
unfolding require_api_user
require_api_user-id jwt_decode c minute now x_api_key authorization s user h =
    let (h, e) =
      HasId-admit c minute now (resolve_principal jwt_decode c x_api_key authorization) s user
        (HasId-resolve_principal jwt_decode c x_api_key authorization) h in
    identified c user h e
