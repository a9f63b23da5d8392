-- ===== src/Http/Stack.antt =====
-- The middlewares in the order that `create_app` of backend/main.py adds them, the last one outermost:
-- metrics around request ids around authentication.
pub mod Counted
mod Examples
use ansuman_gpu_inference_se.Prelude.{
  ℕ, ◌+◌, ◌-◌, String, Bool, true, false, Option, none, some, List, [], ◌∷◌, ◌++◌, length, ◌≡◌,
  refl, ap, ◌∙◌, arith, select, lookup, insert, ◌==◌, ◌=?◌, if◌then◌else◌, length-append,
}
use mathlib.Core.List.{append_assoc, append-nil}
use ansuman_gpu_inference_se.Text.{Text, codes, eqb_text}
use ansuman_gpu_inference_se.Text.Decimal.{str_of_ℕ}
use ansuman_gpu_inference_se.Json.{Fields}
use ansuman_gpu_inference_se.Io.{Exc, app, error, cancelled, Result, ok, raised, Io}
use ansuman_gpu_inference_se.Auth.Keys.{AuthContext, missing_api_key_error}
use ansuman_gpu_inference_se.Http.Errors.{JsonResponse, app_error_response, request_id_header}
use ansuman_gpu_inference_se.Http.Authenticate.{
  Reply, passed_on, refused, extract_bearer_token, is_protected_path,
}
use ansuman_gpu_inference_se.Http.Authenticate
use ansuman_gpu_inference_se.Http.RequestId.{Response}
use ansuman_gpu_inference_se.Http.RequestId
use ansuman_gpu_inference_se.Observability.Metrics.{
  Sample, http_requests_total, http_request_latency_seconds, http_429_total, http_503_total, inc,
  or_unknown, observed, path_template, record_http_request,
}
use ansuman_gpu_inference_se.Observability.Metrics

-- What the authentication middleware hands on is a response either way.
abbrev pub as_response : JsonResponse → Response Fields
as_response r = record { status_code = r.status_code; headers = r.headers; body = r.content }

abbrev pub reply_response : Reply (Response Fields) → Response Fields
reply_response (passed_on r) = r
reply_response (refused r) = as_response r

abbrev pub replied :
    {V : Type 0} → Result (Reply (Response Fields)) × V → Result (Response Fields) × V
replied (ok reply, v) = (ok (reply_response reply), v)
replied (raised e, v) = (raised e, v)

-- A request as the middlewares read it.
pub record Request : Type 0 where
  pub method : String
  pub path : Text
  pub request_id : Option String
  pub authorization : Option Text

-- `routed` is the application behind the middlewares, with its exception handlers: it gets the id and
-- the caller, and runs with the context variable in front of the world.
module _ {W : Type 0} (uuid4_hex : W → String) (perf_counter : W → ℕ) (route : W → Option Text)
    (authenticate : Text → Io (Option String × W) AuthContext)
    (routed : String → Option AuthContext → Io (Option String × W) (Response Fields)) where
  abbrev pub authenticated : Request → String → Io (Option String × W) (Response Fields)
  authenticated request id v = replied (
      Authenticate.dispatch authenticate (routed id) (some id) request.path request.authorization v)

  abbrev pub identified : Request → Io (Option String × W) (Response Fields)
  identified request = RequestId.dispatch uuid4_hex (authenticated request) request.request_id

  -- The middlewares of `create_app`.
  unfoldable pub handle : Request → Io (List Sample × (Option String × W)) (Response Fields)
  handle request =
      Metrics.dispatch (λ v. perf_counter v.1) (λ v. route v.1) (identified request) request.method
        request.path
