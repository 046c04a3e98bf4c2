-- ===== src/Auth/Require.antt =====
-- `require_api_user` and `require_admin_user` of app/auth.py.
use distributed_file_service.Prelude.{
  Bool, List, Option, [], false, if◌then◌else◌, not, ℕ, ◌&&◌, ◌+◌, ◌||◌, ◌∷◌,
}
use distributed_file_service.Text.{Text, codes, lower, split, text_eq, truthy}
use distributed_file_service.Text.Strip.{strip}
use distributed_file_service.Exec.{Exec, Outcome, ok, raised, raise_if, pure, ◌>>◌}
use distributed_file_service.Config.{Settings}
use distributed_file_service.World.{AuthUser}
use distributed_file_service.Auth.{
  Events, JwtResult, admin_required, allow, rate_exceeded, resolve_from_api_key, resolve_from_jwt,
  unsupported_mode, is_blank,
}

pub record AuthState : Type 0 where
  pub events : Events
  pub throttled_requests_total : ℕ

-- The user, the key of the rate limit, and the source.
pub record Principal : Type 0 where
  pub user_id : Text
  pub rate_key : Text
  pub source : Text

abbrev pub from_source : Text → Outcome (Text × Text) → Outcome Principal
from_source source (raised e) = raised e
from_source source (ok (user_id, key)) =
    ok (record { user_id = user_id; rate_key = key; source = source })

-- The tests of the mode, in the order of the source.
unfoldable pub resolve_principal :
    (Text → JwtResult) → Settings → Option Text → Option Text → Outcome Principal
unfolding lower strip text_eq
resolve_principal jwt_decode c x_api_key authorization =
    let mode = strip (lower c.auth_mode) in
    let by_token = from_source (codes "jwt") (resolve_from_jwt jwt_decode c authorization) in
    let by_key = from_source (codes "api_key") (resolve_from_api_key c x_api_key) in
    if text_eq mode (codes "jwt")
    then by_token
    else if text_eq mode (codes "hybrid")
    then (if truthy authorization then by_token else by_key)
    else if text_eq mode (codes "api_key")
    then by_key
    else raised unsupported_mode

-- `{item.strip() for item in admin_user_ids.split(",") if item.strip()}`, asked for a user.
unfoldable pub is_listed : Text → List Text → Bool
unfolding strip text_eq
is_listed user_id [] = false
is_listed user_id (item ∷ items) =
    (not (is_blank (strip item)) && text_eq (strip item) user_id) || is_listed user_id items

unfoldable pub is_admin_id : Settings → Text → Bool
unfolding is_listed split
is_admin_id c user_id = is_listed user_id (split b',' c.admin_user_ids)

abbrev pub count_throttled : AuthState → AuthState
count_throttled s = record s { throttled_requests_total = s.throttled_requests_total + 1 }

-- The rate limit, and the answer.
unfoldable pub admit : Settings → ℕ → ℕ → Outcome Principal → Exec AuthState AuthUser
admit c minute now (raised e) s = (raised e, s)
admit c minute now (ok p) s =
    let r = allow p.rate_key c.api_rate_limit_per_minute minute now s.events in
    let s' = record s { events = r.1 } in
    if r.0
    then (
      ok (record { user_id = p.user_id; api_key = p.source; is_admin = is_admin_id c p.user_id }),
      s',
    )
    else (raised rate_exceeded, count_throttled s')

-- `require_api_user` at the time `now`; `minute` is 60 seconds in the unit of the times.
unfoldable pub require_api_user :
    (Text → JwtResult) → Settings → ℕ → ℕ → Option Text → Option Text → Exec AuthState AuthUser
unfolding admit resolve_principal
require_api_user jwt_decode c minute now x_api_key authorization =
    admit c minute now (resolve_principal jwt_decode c x_api_key authorization)

unfoldable pub require_admin_user : AuthUser → Exec AuthState AuthUser
require_admin_user user = do raise_if (not user.is_admin) admin_required; pure user
