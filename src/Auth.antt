-- ===== src/Auth.antt =====
-- app/auth.py: who a request is from, and the limit on the requests of one principal. Times are in
-- any unit; `jwt.decode`, with the key and the algorithm of the settings, is a parameter. The
-- messages of an unsupported mode and of an invalid token leave out what they quote.
pub mod Buckets
pub mod Window
pub mod Require
pub mod Identity
use distributed_file_service.Prelude.{
  Bool, List, Option, [], false, if◌then◌else◌, leb, length, ltb, none, some, true, ℕ, ◌++◌, ◌+◌,
  ◌==◌, ◌∷◌,
}
use distributed_file_service.Text.{Text, codes, split, split_once, strip_prefix?}
use distributed_file_service.Text.Strip.{strip}
use distributed_file_service.Exec.{Error, Outcome, http, http_error, ok, raised}
use distributed_file_service.Dict.{Dict, get_or, insert, lookup}
use distributed_file_service.Config.{Settings}

-- `ApiKeyRateLimiter`: the times of the accepted requests, by key.
abbrev pub Events : Type 0
Events = Dict (List ℕ)

-- `while bucket and bucket[0] < cutoff: bucket.popleft()`.
unfoldable pub drop_old : ℕ → ℕ → List ℕ → List ℕ
drop_old now window [] = []
drop_old now window (t ∷ bucket) =
    let rest = drop_old now window bucket in if ltb (t + window) now then rest else t ∷ bucket

abbrev pub bucket_of : Text → Events → List ℕ
bucket_of key events = get_or (lookup key events) []

-- `allow`; the lock makes it one step.
unfoldable pub allow : Text → ℕ → ℕ → ℕ → Events → Bool × Events
allow key limit window now events =
    let bucket = drop_old now window (bucket_of key events) in
    if limit == 0
    then (true, events)
    else if leb limit (length bucket)
    then (false, insert key bucket events)
    else (true, insert key (bucket ++ now ∷ []) events)

-- What the library makes of a token: its claims, or an `InvalidTokenError`.
pub data JwtResult : Type 0 where
  payload : (sub user_id : Option Text) → JwtResult
  invalid : JwtResult

abbrev pub missing_bearer : Error
missing_bearer = http_error 401 "missing bearer token"

abbrev pub invalid_header : Error
invalid_header = http_error 401 "invalid authorization header"

abbrev pub no_secret : Error
no_secret = http_error 500 "jwt auth is enabled but jwt_secret is not configured"

abbrev pub invalid_token : Error
invalid_token = http_error 401 "invalid bearer token"

abbrev pub no_subject : Error
no_subject = http_error 401 "jwt missing subject claim"

abbrev pub missing_api_key : Error
missing_api_key = http_error 401 "missing API key"

abbrev pub invalid_api_key : Error
invalid_api_key = http_error 403 "invalid API key"

abbrev pub unsupported_mode : Error
unsupported_mode = http_error 500 "unsupported auth_mode"

abbrev pub rate_exceeded : Error
rate_exceeded = http (record {
  status_code = 429;
  detail = "principal rate limit exceeded";
  headers = ("Retry-After", "60") ∷ ("X-RateLimit-Reason", "api_key_rate_limit") ∷ [];
})

abbrev pub admin_required : Error
admin_required = http_error 403 "admin access required"

-- One item of the mappings: `key:user`, with spaces around either.
abbrev pub put_pair : Text → Text → Dict Text → Dict Text
put_pair [] user mapping = mapping
put_pair (c ∷ key) [] mapping = mapping
put_pair (c ∷ key) (d ∷ user) mapping = insert (c ∷ key) (d ∷ user) mapping

abbrev pub put_split : Text × Option Text → Dict Text → Dict Text
put_split (key, none) mapping = mapping
put_split (key, some user) mapping = put_pair (strip key) (strip user) mapping

unfoldable pub put_items : List Text → Dict Text → Dict Text
unfolding strip split_once insert
put_items [] mapping = mapping
put_items (item ∷ items) mapping =
    put_items items (put_split (split_once b':' (strip item)) mapping)

-- `_parse_api_key_mappings`.
unfoldable pub parse_api_key_mappings : Settings → Dict Text
unfolding put_items split
parse_api_key_mappings c = put_items (split b',' (strip c.api_key_mappings)) []

abbrev pub or_missing : Text → Outcome Text
or_missing [] = raised missing_bearer
or_missing (c ∷ token) = ok (c ∷ token)

-- `_parse_bearer_token`.
unfoldable pub parse_bearer_token : Option Text → Outcome Text
unfolding strip_prefix? strip
parse_bearer_token none = raised missing_bearer
parse_bearer_token (some []) = raised missing_bearer
parse_bearer_token (some (c ∷ header)) = elim (strip_prefix? (codes "Bearer ") (c ∷ header)) [
  | none ↦ raised invalid_header
  | some token ↦ or_missing (strip token)
]

-- `payload.get("sub") or payload.get("user_id") or ""`.
abbrev pub subject_of : Option Text → Option Text → Text
subject_of (some (c ∷ sub)) user_id = c ∷ sub
subject_of _ (some user_id) = user_id
subject_of _ none = []

abbrev pub with_subject : Text → Text → Outcome (Text × Text)
with_subject [] token = raised no_subject
with_subject (c ∷ user_id) token = ok (c ∷ user_id, token)

abbrev pub decoded : JwtResult → Text → Outcome (Text × Text)
decoded invalid token = raised invalid_token
decoded (payload sub user_id) token = with_subject (strip (subject_of sub user_id)) token

abbrev pub decode_token : (Text → JwtResult) → Outcome Text → Outcome (Text × Text)
decode_token jwt_decode (raised e) = raised e
decode_token jwt_decode (ok token) = decoded (jwt_decode token) token

abbrev pub is_blank : Text → Bool
is_blank [] = true
is_blank (c ∷ s) = false

-- `_resolve_from_jwt`.
unfoldable pub resolve_from_jwt :
    (Text → JwtResult) → Settings → Option Text → Outcome (Text × Text)
unfolding parse_bearer_token strip
resolve_from_jwt jwt_decode c authorization =
    if is_blank c.jwt_secret
    then raised no_secret
    else decode_token jwt_decode (parse_bearer_token authorization)

abbrev pub known_user : Option Text → Text → Outcome (Text × Text)
known_user none key = raised invalid_api_key
known_user (some []) key = raised invalid_api_key
known_user (some (c ∷ user_id)) key = ok (c ∷ user_id, key)

-- `_resolve_from_api_key`.
unfoldable pub resolve_from_api_key : Settings → Option Text → Outcome (Text × Text)
unfolding parse_api_key_mappings lookup
resolve_from_api_key c none = raised missing_api_key
resolve_from_api_key c (some []) = raised missing_api_key
resolve_from_api_key c (some (k ∷ key)) =
    known_user (lookup (k ∷ key) (parse_api_key_mappings c)) (k ∷ key)
