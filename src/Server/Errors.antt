-- ===== src/Server/Errors.antt =====
-- internal/subresourceapi/errors.go and server.go: errors as statuses.
use kubewaf.Prelude.{ℕ, String, ◌||◌, Option, none, some, ◌==◌, if◌then◌else◌, str_eq}
use kubewaf.Prelude.Bytes.{Bytes, codes}

pub record MappedError : Type 0 where
  pub http_status : ℕ
  pub reason : String
  pub message : Bytes

pub record PathError : Type 0 where
  pub reason : String
  pub message : Bytes

-- `mapPathError` (every error it is called with is a `*PathError`)
unfoldable pub map_path_error : PathError → MappedError
map_path_error e = record {
  http_status =
      if str_eq e.reason "InvalidProbePath" || str_eq e.reason "SecActionProbesDeferred"
      then 400
      else 404;
  reason = e.reason;
  message = e.message;
}

mapped : ℕ → String → String → Option MappedError
mapped status reason message =
    some (record { http_status = status; reason = reason; message = codes message })

-- `MapTestServerStatus`: no error at 200.
unfoldable pub map_test_server_status : ℕ → Option MappedError
unfolding mapped
map_test_server_status code =
    if code == 200
    then none
    else if code == 400
    then mapped 400 "EvalRequestInvalid" "invalid eval request"
    else if code == 401
    then mapped 503 "TestServerUnauthorized" "test server authentication failed"
    else if code == 413
    then mapped 400 "EvalPayloadTooLarge" "eval payload too large"
    else if code == 429
    then mapped 429 "TestServerBusy" "test server busy"
    else if code == 504
    then mapped 503 "EvalTimeout" "evaluation timed out"
    else if code == 503
    then mapped 503 "TestServerUnavailable" "test server unavailable"
    else if code == 500
    then mapped 503 "EvalEngineError" "evaluation engine error"
    else mapped 503 "EvalEngineError" "unexpected test server status"
