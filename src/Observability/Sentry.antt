-- ===== src/Observability/Sentry.antt =====
-- backend/services/observability/sentry.py: when an exception is reported to Sentry, and with what.
pub mod Counts
pub mod Once
mod Examples
use ansuman_gpu_inference_se.Prelude.{
  ℕ, String, Bool, true, false, not, ◌&&◌, ◌||◌, Option, none, some, List, [], ◌∷◌, ◌++◌, ◌=?◌,
  if◌then◌else◌,
}
use ansuman_gpu_inference_se.Text.{Text}
use ansuman_gpu_inference_se.Json.{Json, Fields}
use ansuman_gpu_inference_se.Io.{
  Exc, app, error, cancelled, Result, ok, raised, Io, pure, ◌>>=◌, ◌>>◌, try_except, finally,
}
use ansuman_gpu_inference_se.Auth.Keys.{AuthContext}
use ansuman_gpu_inference_se.Observability.{should_skip_exception}

-- The fields of the settings that Sentry is started with; a double has the type `Float`.
pub record SentrySettings (Float : Type 0) : Type 0 where
  pub sentry_dsn : Option String
  pub app_env : String
  pub release : Option String
  pub sentry_send_default_pii : Bool
  pub sentry_traces_sample_rate : Float

-- The calls of the `sentry_sdk` package; a scope is opened by `push_scope` and closed at the end of its
-- `with`, and a call may raise.
pub record Sdk (W Float : Type 0) : Type 0 where
  pub init : SentrySettings Float → Io W (Unit {0})
  pub push_scope : Io W (Unit {0})
  pub pop_scope : Io W (Unit {0})
  pub configure_scope : Io W (Unit {0})
  pub set_tag : String → String → Io W (Unit {0})
  pub set_context : String → Json → Io W (Unit {0})
  pub set_user : String → Io W (Unit {0})
  pub capture_exception : Exc → Io W (Option String)

-- A request, and what the handlers have put into its state.
pub record Request : Type 0 where
  pub path : String
  pub method : String
  pub request_id : Option String
  pub auth_context : Option AuthContext
  pub sentry_exception_captured : Bool

-- `str` of the tag `stream`
abbrev pub str_of_Bool : Bool → String
str_of_Bool true = "True"
str_of_Bool false = "False"

abbrev pub shown : Option Bool → Option String
shown none = none
shown (some b) = some (str_of_Bool b)

abbrev pub Tags : Type 0
Tags = List (String × Option String)

abbrev pub request_tags : Request → Option String → Option Bool → Tags
request_tags request model stream =
    ("request_id", request.request_id)
    ∷ ("endpoint", some request.path)
    ∷ ("method", some request.method)
    ∷ ("model", model)
    ∷ ("stream", shown stream)
    ∷ []

abbrev pub caller_tags : Option AuthContext → Tags
caller_tags none = []
caller_tags (some c) =
    ("user_id", some c.user_id)
    ∷ ("project_id", some c.project_id)
    ∷ ("api_key_id", some c.api_key_id)
    ∷ []

-- `getattr(exc, "code", None)`
abbrev pub code_of : Exc → Option String
code_of (app e) = some e.code
code_of _ = none

-- The loop over the tags: one with no value is not set.
module _ {W Float : Type 0} (sdk : Sdk W Float) where
  abbrev pub set_if : String → Option String → Io W (Unit {0})
  set_if key none = pure tt
  set_if key (some value) = sdk.set_tag key value

  unfoldable pub set_tags : Tags → Io W (Unit {0})
  set_tags [] = pure tt
  set_tags ((key, value) ∷ tags) = set_if key value >> set_tags tags

  abbrev pub set_app_context : Option Json → Io W (Unit {0})
  set_app_context none = pure tt
  set_app_context (some context) = sdk.set_context "app" context

  abbrev pub set_caller : Option AuthContext → Io W (Unit {0})
  set_caller none = pure tt
  set_caller (some c) = sdk.set_user c.user_id

  -- The `with sentry_sdk.push_scope()` of `capture_exception`.
  unfoldable pub report : Tags → Option Json → Exc → Io W (Option String)
  unfolding set_tags
  report tags context exc =
      sdk.push_scope
      >> finally (set_tags tags >> (set_app_context context >> sdk.capture_exception exc))
          sdk.pop_scope

  unfoldable pub bind_tags : Tags → Option AuthContext → Io W (Unit {0})
  unfolding set_tags
  bind_tags tags caller = sdk.configure_scope >> (set_tags tags >> set_caller caller)

-- `sdk` is `none` where the package is not installed, and `enabled` is `_sentry_enabled`; a context is
-- scrubbed before it is set.
module _ {W Float : Type 0} (sdk : Option (Sdk W Float)) (scrubbed : Json → Json) where
  abbrev scrubbed_context : Option Json → Option Json
  scrubbed_context none = none
  scrubbed_context (some context) = some (scrubbed context)

  abbrev pub report_to : Option (Sdk W Float) → Tags → Option Json → Exc → Io W (Option String)
  report_to none tags context exc = pure none
  report_to (some s) tags context exc =
      try_except (report s tags (scrubbed_context context) exc) (λ _. pure none)

  -- `capture_exception`
  unfoldable pub capture_exception : Bool → Exc → Tags → Option Json → Io W (Option String)
  unfolding report should_skip_exception
  capture_exception enabled exc tags context =
      if should_skip_exception exc || not enabled then pure none else report_to sdk tags context exc

  abbrev pub bind_to : Option (Sdk W Float) → Tags → Option AuthContext → Io W (Unit {0})
  bind_to none tags caller = pure tt
  bind_to (some s) tags caller = try_except (bind_tags s tags caller) (λ _. pure tt)

  -- `bind_request_context`
  unfoldable pub bind_request_context :
      Bool → Request → Option String → Option Bool → Io W (Unit {0})
  unfolding bind_tags
  bind_request_context enabled request model stream =
      if not enabled
      then pure tt
      else bind_to sdk (request_tags request model stream ++ caller_tags request.auth_context)
          request.auth_context

  -- The request once a report of it was accepted.
  abbrev pub marked : Option String → Request → Request
  marked none request = request
  marked (some event_id) request = record request { sentry_exception_captured = true }

  abbrev pub answered : Request → Option String → Io W (Option String × Request)
  answered request event_id = pure (event_id, marked event_id request)

  abbrev pub request_report_tags : Request → Exc → Option String → Option Bool → Tags
  request_report_tags request exc model stream =
      (request_tags request model stream ++ ("error_code", code_of exc) ∷ [])
      ++ caller_tags request.auth_context

  -- `capture_request_exception`, with the request beside its answer.
  unfoldable pub capture_request_exception :
      Bool → Request → Exc → Option String → Option Bool → Io W (Option String × Request)
  unfolding bind_request_context capture_exception
  capture_request_exception enabled request exc model stream =
      if request.sentry_exception_captured
      then pure (none, request)
      else (bind_request_context enabled request model stream
          >> (capture_exception enabled exc (request_report_tags request exc model stream) none
              >>= answered request))

  -- `initialize_sentry`: the answer is the new value of `_sentry_enabled`.
  abbrev pub initialize_with : Option (Sdk W Float) → SentrySettings Float → Io W Bool
  initialize_with none settings = pure false
  initialize_with (some s) settings = try_except (s.init settings >> pure true) (λ _. pure false)

  abbrev has_dsn : Option String → Bool
  has_dsn none = false
  has_dsn (some dsn) = not (dsn =? "")

  unfoldable pub initialize_sentry : SentrySettings Float → Io W Bool
  initialize_sentry settings =
      if has_dsn settings.sentry_dsn then initialize_with sdk settings else pure false
