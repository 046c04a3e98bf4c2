-- ===== src/Limits.antt =====
-- app/limits.py: the limit on the chunks of one upload that are in flight. Each method holds the
-- object's lock, so a method is one step.
pub mod Holders
use Prim.Native.String.{String}
use distributed_file_service.Prelude.{
  Bool, Option, [], false, if◌then◌else◌, leb, ltb, max, none, some, ℕ, ◌&&◌, ◌+◌, ◌-◌, ◌==◌, ◌∷◌,
}
use distributed_file_service.Text.{Text}
use distributed_file_service.Exec.{Error, Exec, http, ok, raised}
use distributed_file_service.Dict.{Dict, get_or, insert, lookup, remove}

pub record Limiter : Type 0 where
  pub limit : ℕ
  pub fair_share_limit : Option ℕ
  pub counts : Dict ℕ
  pub throttled_requests_total : ℕ

abbrev pub init : ℕ → Option ℕ → Limiter
init limit fair = record {
  limit = limit;
  fair_share_limit = fair;
  counts = [];
  throttled_requests_total = 0;
}

abbrev throttled : String → String → Error
throttled detail reason = http (record {
  status_code = 429;
  detail = detail;
  headers = ("Retry-After", "1") ∷ ("X-RateLimit-Reason", reason) ∷ [];
})

abbrev pub inflight_error : Error
inflight_error = throttled "per-upload inflight chunk limit reached" "upload_inflight_limit"

abbrev pub fair_share_error : Error
fair_share_error = throttled "per-upload fair-share limit reached" "upload_fair_share_limit"

abbrev pub current : Limiter → Text → ℕ
current l upload_id = get_or (lookup upload_id l.counts) 0

-- `self.fair_share_limit is not None and self.fair_share_limit > 0 and current >= ...`.
abbrev over_fair_share : Option ℕ → ℕ → Bool
over_fair_share none current = false
over_fair_share (some fair) current = ltb 0 fair && leb fair current

abbrev throttle : Limiter → Limiter
throttle l = record l { throttled_requests_total = l.throttled_requests_total + 1 }

unfoldable pub acquire : Text → Exec Limiter Unit
acquire upload_id l =
    if leb l.limit (current l upload_id)
    then (raised inflight_error, throttle l)
    else if over_fair_share l.fair_share_limit (current l upload_id)
    then (raised fair_share_error, throttle l)
    else (ok tt, record l { counts = insert upload_id (current l upload_id + 1) l.counts })

unfoldable pub release : Text → Limiter → Limiter
release upload_id l =
    let next_value = max 0 (current l upload_id - 1) in
    if next_value == 0
    then record l { counts = remove upload_id l.counts }
    else record l { counts = insert upload_id next_value l.counts }
