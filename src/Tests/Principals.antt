-- ===== src/Tests/Principals.antt =====
-- Authentication at concrete inputs.
use distributed_file_service.Prelude.{List, [], arith, count, none, refl, some, true, ◌∷◌, ◌≡◌, ◌≤◌}
use distributed_file_service.Text.{Text, codes, lower, split, split_once, text_eq}
use distributed_file_service.Text.Strip.{is_space, strip, strip_left}
use distributed_file_service.Text.Decimal.{reverse_onto}
use distributed_file_service.Exec.{ok}
use distributed_file_service.Dict.{insert, lookup}
use distributed_file_service.Config.{default_settings}
use distributed_file_service.World.{AuthUser}
use distributed_file_service.Auth.{
  JwtResult, allow, drop_old, invalid, parse_api_key_mappings, put_items, resolve_from_api_key,
}
use distributed_file_service.Auth.Buckets.{recent}
use distributed_file_service.Auth.Window.{Attempt, attempts, attempts-le-limit}
use distributed_file_service.Auth.Require.{
  AuthState, admit, is_admin_id, is_listed, require_api_user, resolve_principal,
}
use distributed_file_service.Auth.Identity.{IsIdentified, require_api_user-id}

-- Three requests of one key and one of another.
abbrev four_attempts : List Attempt
four_attempts =
    record { key = codes "k"; now = 1 }
    ∷ record { key = codes "k"; now = 5 }
    ∷ record { key = codes "l"; now = 6 }
    ∷ record { key = codes "k"; now = 12 }
    ∷ []

attempts-le-limit_example :
    count
      (recent 10 13)
      (attempts (codes "k") 2 10 four_attempts (record { log = []; events = [] })).log
    ≤ 2
attempts-le-limit_example =
    attempts-le-limit (codes "k") 2 10 four_attempts 13 (omega arith)
      (omega arith, (omega arith, (omega arith, (omega arith, tt))))
      (omega arith, (omega arith, (omega arith, (omega arith, tt))))

abbrev dev_user : AuthUser
dev_user = record { user_id = codes "dev-user"; api_key = codes "api_key"; is_admin = true }

abbrev new_state : AuthState
new_state = record { events = []; throttled_requests_total = 0 }

abbrev no_token : Text → JwtResult
no_token token = invalid

dev_user_is_let_in :
    (require_api_user no_token default_settings 60 7 (some (codes "dev-key")) none new_state).0
    ≡ ok dev_user
unfolding require_api_user admit resolve_principal resolve_from_api_key parse_api_key_mappings
    put_items split split_once strip strip_left is_space reverse_onto lower text_eq lookup insert
    allow drop_old is_admin_id is_listed
dev_user_is_let_in = refl

require_api_user-id_example : IsIdentified default_settings dev_user
require_api_user-id_example =
    require_api_user-id no_token default_settings 60 7 (some (codes "dev-key")) none new_state
      dev_user dev_user_is_let_in
