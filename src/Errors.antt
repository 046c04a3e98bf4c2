-- ===== src/Errors.antt =====
-- What a client sees of an exception: the handlers of `HTTPException` and of any other exception in
-- app/main.py. The ids of the request and of the trace, and the log line, are left out.
use Prim.Native.String.{String}
use distributed_file_service.Prelude.{List, Option, [], if◌then◌else◌, refl, ℕ, ◌++◌, ◌==◌, ◌≡◌}
use distributed_file_service.Text.{Text, codes}
use distributed_file_service.Text.Decimal.{decimal}
use distributed_file_service.Exec.{Error, http, unhandled}

pub record ErrorReply : Type 0 where
  pub status_code : ℕ
  pub detail : String
  pub error_code : Text
  pub upload_id : Option Text
  pub headers : List (String × String)

-- `_error_code_for_status`.
unfoldable pub error_code_for_status : ℕ → Text
unfolding decimal
error_code_for_status status =
    if status == 400
    then codes "bad_request"
    else if status == 401
    then codes "missing_api_key"
    else if status == 403
    then codes "forbidden"
    else if status == 404
    then codes "not_found"
    else if status == 409
    then codes "conflict"
    else if status == 416
    then codes "range_not_satisfiable"
    else if status == 429
    then codes "throttled"
    else if status == 500
    then codes "internal_error"
    else codes "http_" ++ decimal status

-- `http_exception_handler` and `unhandled_exception_handler`.
unfoldable pub error_reply : Option Text → Error → ErrorReply
error_reply upload_id (http e) = record {
  status_code = e.status_code;
  detail = e.detail;
  error_code = error_code_for_status e.status_code;
  upload_id = upload_id;
  headers = e.headers;
}
error_reply upload_id (unhandled text) = record {
  status_code = 500;
  detail = "internal server error";
  error_code = codes "internal_error";
  upload_id = upload_id;
  headers = [];
}

-- The code of an error belongs to its status, also for an exception that no handler foresaw.
pub error_code-status :
    (upload_id : Option Text) (e : Error)
    → (error_reply upload_id e).error_code
      ≡ error_code_for_status (error_reply upload_id e).status_code
unfolding error_reply error_code_for_status
error_code-status upload_id (http e) = refl
error_code-status upload_id (unhandled text) = refl

-- An exception that is no HTTPException shows nothing of its text.
pub error_reply_hides :
    (upload_id : Option Text) (text other : String)
    → error_reply upload_id (unhandled text) ≡ error_reply upload_id (unhandled other)
unfolding error_reply
error_reply_hides upload_id text other = refl
