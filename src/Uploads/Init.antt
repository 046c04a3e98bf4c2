-- ===== src/Uploads/Init.antt =====
-- `init_upload` of app/main.py, and the request and response of app/schemas.py.
pub mod Effect
pub mod Size
use distributed_file_service.Prelude.{
  Bool, Option, [], false, find, if◌then◌else◌, leb, length, ltb, none, some, true, update, ℕ, ◌&&◌,
  ◌%◌, ◌*◌, ◌++◌, ◌+◌, ◌-◌, ◌/◌, ◌==◌, ◌^◌, suc, zero, ◌||◌, ◌∷◌,
}
use distributed_file_service.Text.{Text, codes, lower, text_eq}
use distributed_file_service.Exec.{
  Error, Exec, Outcome, gets, http_error, message_of, modify, ok, pure, raise_if, raised,
  try_except, unhandled, ◌>>=◌, ◌>>◌,
}
use distributed_file_service.Config.{Settings, is_s3_compatible}
use distributed_file_service.Models.{
  Db, InitRequestIdempotency, Upload, UploadStatus, has_id, initiated,
}
use distributed_file_service.Json.{int, optional, str}
use distributed_file_service.World.{
  AuthUser, Service, World, audit_event, commit, fingerprint, flush, in_session, in_store, or_run,
  rollback,
}

pub record InitUploadRequest : Type 0 where
  pub file_name : Text
  pub file_size : ℕ
  pub chunk_size : Option ℕ
  pub file_checksum_sha256 : Option Text

pub record InitUploadResponse : Type 0 where
  pub upload_id : Text
  pub chunk_size : ℕ
  pub total_chunks : ℕ
  pub status : UploadStatus

unfoldable pub is_hex : ℕ → Bool
is_hex c = (leb 48 c && leb c 57) || ((leb 97 c && leb c 102) || (leb 65 c && leb c 70))

unfoldable pub all_hex : Text → Bool
unfolding is_hex
all_hex [] = true
all_hex (c ∷ s) = is_hex c && all_hex s

-- The constraints of the fields: `min_length=1`, `gt=0`, `gt=0`, 64 hexadecimal digits.
unfoldable pub is_valid_request : InitUploadRequest → Bool
unfolding all_hex
is_valid_request r =
    ltb 0 (length r.file_name)
    && (ltb 0 r.file_size
        && (elim r.chunk_size [ none ↦ true | some n ↦ ltb 0 n ]
            && elim r.file_checksum_sha256 [ none ↦ true | some s ↦ length s == 64 && all_hex s ]))

-- `payload.chunk_size or settings.chunk_size_bytes`.
unfoldable pub chunk_size_of : Settings → InitUploadRequest → ℕ
chunk_size_of c r = elim r.chunk_size [
  | none ↦ c.chunk_size_bytes
  | some n ↦ if n == 0 then c.chunk_size_bytes else n
]

-- `checksum.lower() if checksum else None`.
unfoldable pub lower_checksum : Option Text → Option Text
unfolding lower
lower_checksum none = none
lower_checksum (some []) = none
lower_checksum (some (c ∷ s)) = some (lower (c ∷ s))

-- The nearest integer of a quotient, the even one of two.
unfoldable half_even : ℕ → ℕ → ℕ
half_even a b =
    if ltb b (2 * (a % b)) || (2 * (a % b) == b && (a / b) % 2 == 1) then a / b + 1 else a / b

-- A quotient that is doubled until it has 53 bits, `t` times in all, is rounded; then its ceiling.
unfoldable ceil_below : ℕ → ℕ → ℕ → ℕ → ℕ
unfolding half_even
ceil_below zero t a b = (half_even a b + (t - 1)) / t
ceil_below (suc n) t a b = elim (ltb (a / b) (2 ^ 52)) [
  | true ↦ ceil_below n (2 * t) (2 * a) b
  | false ↦ (half_even a b + (t - 1)) / t
]

-- A quotient that is halved until it has 53 bits is rounded, so it is an integer.
unfoldable round_above : ℕ → ℕ → ℕ → ℕ → ℕ
unfolding half_even
round_above zero t a b = half_even a b * t
round_above (suc n) t a b = elim (leb (2 ^ 53) (a / b)) [
  | true ↦ round_above n (2 * t) a (2 * b)
  | false ↦ half_even a b * t
]

-- `math.ceil(file_size / chunk_size)`, where `/` gives the nearest float, of 53 bits. Up to 2^53 the
-- rounding does not change the ceiling. Beyond, 1 is the ceiling below 1; from 1 on, the quotient is
-- rounded as it is (52 doublings reach 53 bits; 971 halvings do for every quotient that a float
-- holds). A chunk size that makes the float 0, above 2^1000, is not modelled.
unfoldable pub ceil_div : ℕ → ℕ → ℕ
unfolding half_even ceil_below round_above
ceil_div a b =
    if leb a (2 ^ 53)
    then (a + (b - 1)) / b
    else if ltb a b
    then 1
    else if leb (2 ^ 53) (a / b)
    then round_above 971 1 a b
    else ceil_below 52 1 a b

abbrev pub min_multipart_part_size : ℕ
min_multipart_part_size = 5 * 1024 * 1024

abbrev pub response_of : Upload → InitUploadResponse
response_of u = record {
  upload_id = u.id;
  chunk_size = u.chunk_size;
  total_chunks = u.total_chunks;
  status = u.status;
}

abbrev pub init_key_conflict : Error
init_key_conflict = http_error 409 "idempotency key reused with different init payload"

abbrev pub init_key_owner : Error
init_key_owner = http_error 403 "idempotency key belongs to a different owner"

-- The stored answer for a key that was used before; none when there is nothing to replay.
unfoldable pub replay_upload : AuthUser → Option Upload → Outcome (Option InitUploadResponse)
replay_upload user none = ok none
replay_upload user (some upload) =
    if text_eq upload.owner_id user.user_id
    then ok (some (response_of upload))
    else raised init_key_owner

unfoldable pub replay_request :
    Text → AuthUser → Db → Option InitRequestIdempotency → Outcome (Option InitUploadResponse)
unfolding replay_upload
replay_request print user db none = ok none
replay_request print user db (some row) =
    if text_eq row.request_fingerprint print
    then replay_upload user (find (has_id row.upload_id) db.uploads)
    else raised init_key_conflict

unfoldable pub use_multipart : Settings → Upload → Bool
use_multipart c u =
    is_s3_compatible c && (ltb 1 u.total_chunks && leb min_multipart_part_size u.chunk_size)

abbrev pub set_multipart : Text → Option Text → Db → Db
set_multipart id multipart db = record db {
  uploads = update (has_id id) (λ u. record u { multipart_upload_id = multipart }) db.uploads;
}

abbrev pub add_init_request : Option Text → Text → Text → ℕ → Db → Db
add_init_request none id print now db = db
add_init_request (some []) id print now db = db
add_init_request (some (c ∷ key)) id print now db = record db {
  init_requests =
      db.init_requests
      ++ record {
        idempotency_key = c ∷ key;
        upload_id = id;
        request_fingerprint = print;
        created_at = now;
      }
        ∷ [];
}

module _ {St Q : Type 0} where
  unfoldable pub init_fingerprint : Service St Q → InitUploadRequest → Text
  init_fingerprint v r = fingerprint v (
      (codes "file_name", str r.file_name)
      ∷ (codes "file_size", int r.file_size)
      ∷ (codes "chunk_size", int (chunk_size_of v.config r))
      ∷ (codes "file_checksum_sha256", optional (lower_checksum r.file_checksum_sha256))
      ∷ [])

  unfoldable pub init_replay :
      Text → Option Text → AuthUser → Exec (World St Q) (Option InitUploadResponse)
  init_replay print none user w = (ok none, w)
  init_replay print (some []) user w = (ok none, w)
  init_replay print (some (c ∷ key)) user w = (
    replay_request print user w.session
        (find (λ r. text_eq r.idempotency_key (c ∷ key)) w.session.init_requests),
    w,
  )

  abbrev pub new_upload : Service St Q → Text → InitUploadRequest → AuthUser → ℕ → Upload
  new_upload v id r user now = record {
    id = id;
    owner_id = user.user_id;
    file_name = r.file_name;
    file_size = r.file_size;
    chunk_size = chunk_size_of v.config r;
    total_chunks = ceil_div r.file_size (chunk_size_of v.config r);
    file_checksum_sha256 = lower_checksum r.file_checksum_sha256;
    status = initiated;
    multipart_upload_id = none;
    created_at = now;
    updated_at = now;
  }

  -- An exception of the storage ends in a rollback and a 500.
  unfoldable pub start_multipart : Service St Q → Upload → Exec (World St Q) Unit
  start_multipart v upload =
      try_except
        (do
          id ← in_store (v.storage.initialize_upload upload.id)
          modify (in_session (set_multipart upload.id id)))
        λ e w. (
          raised (http_error 500 (message_of "failed to initialize upload storage: " e)),
          rollback w,
        )

  -- The owner of the new upload is the user.
  unfoldable pub create_upload :
      Service St Q → Upload → Text → Option Text → Exec (World St Q) InitUploadResponse
  create_upload v upload print key = do
    modify (in_session (λ db. record db { uploads = db.uploads ++ upload ∷ [] }))
    flush
    if use_multipart v.config upload then start_multipart v upload else pure tt
    modify (λ w. in_session (add_init_request key upload.id print w.now) w)
    commit
    modify (
        audit_event (record {
          action = "upload_init";
          upload_id = upload.id;
          user_id = upload.owner_id;
          status = upload.status;
          flag = false;
        }))
    pure (response_of upload)

  unfoldable pub init_upload :
      Service St Q
      → Text
      → InitUploadRequest
      → Option Text
      → AuthUser
      → Exec (World St Q) InitUploadResponse
  init_upload v new_id payload idempotency_key user = do
    now ← gets (λ w. w.now)
    replay ← init_replay (init_fingerprint v payload) idempotency_key user
    or_run replay (do
      raise_if (chunk_size_of v.config payload == 0) (unhandled "ZeroDivisionError")
      create_upload v (new_upload v new_id payload user now) (init_fingerprint v payload)
          idempotency_key)
