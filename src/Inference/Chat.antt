-- ===== src/Inference/Chat.antt =====
-- `create_chat_completion` of backend/api/routes/chat_completions.py.
pub mod Slots
use ansuman_gpu_inference_se.Prelude.{
  ℕ, ℤ, pos, String, Bool, true, false, Option, none, some, if◌then◌else◌,
}
use ansuman_gpu_inference_se.Text.{Text}
use ansuman_gpu_inference_se.Json.{Fields}
use ansuman_gpu_inference_se.Io.{
  AppError, Exc, app, Result, ok, raised, Io, pure, raise, lift, code_or, ◌>>=◌, ◌>>◌, try_except,
  finally,
}
use ansuman_gpu_inference_se.Auth.Keys.{AuthContext, missing_api_key_error, ensure_model_allowed}
use ansuman_gpu_inference_se.Tokens.Estimate.{TokenEstimator}
use ansuman_gpu_inference_se.Tokens.Plan.{
  ChatCompletionRequest, TokenPlan, Limits, build_token_plan,
}
use ansuman_gpu_inference_se.Tokens.Usage.{UsageRecord, usage_from_response}
use ansuman_gpu_inference_se.Audit.Lifecycle.{
  RequestAudit, AuditStart, build_audit_start, build_audit_final,
}
use ansuman_gpu_inference_se.Analytics.Events.{UsageEvent}
use ansuman_gpu_inference_se.Inference.Services.{
  AdmissionController, normalize_chat_completion_payload, usage_event_of, emit_usage, tell,
}

-- The application's state and services as the handler uses them: `capture` is the Sentry report,
-- `bind_context` the Sentry tags, `record_usage` the list of usage records.
pub record App (W L : Type 0) : Type 0 where
  pub admission : AdmissionController W L
  pub audit : RequestAudit W
  pub complete : Fields → Io W Fields
  pub collect : UsageEvent → Io W Bool
  pub capture : Exc → W → W
  pub bind_context : W → W
  pub record_usage : UsageRecord → W → W
  pub elapsed_ms : W → ℤ
  pub utc_now : W → ℕ
  pub token_estimator : TokenEstimator
  pub limits : Limits
  pub sha256_hex : Text → String

-- What the handler returns: an answer, or a stream that is served after it has returned, over the
-- lease, the plan and the audit record of the request.
pub data Response (L : Type 0) : Type 0 where
  json_response : Fields → Response L
  streaming_response : Fields → L → TokenPlan → String → Response L

-- What is known of a request when its answer is due.
pub record Call (L : Type 0) : Type 0 where
  pub context : AuthContext
  pub request_id : String
  pub model : String
  pub lease : L
  pub plan : TokenPlan
  pub record_id : String

-- `str(request_id or "")`
abbrev pub text_or_empty : Option String → String
text_or_empty none = ""
text_or_empty (some s) = s

module _ {W L : Type 0} (gateway : App W L) where
  -- `_emit_usage_analytics`
  unfoldable pub emit : Call L → UsageRecord → Option ℤ → Option String → Io W (Unit {0})
  emit call usage latency_ms error_code w =
      emit_usage gateway.collect
        (usage_event_of (gateway.utc_now w) call.context call.request_id call.model usage latency_ms
          error_code)
        w

  -- The end of the audit and the usage event, with the latency read once.
  unfoldable pub close_call : Call L → UsageRecord → Option String → Io W (Unit {0})
  unfolding emit
  close_call call usage error_code w =
      let latency_ms = some (gateway.elapsed_ms w) in
      (gateway.audit.finalize (build_audit_final call.record_id usage latency_ms error_code)
          >> emit call usage latency_ms error_code)
        w

  abbrev pub failed_usage : TokenPlan → UsageRecord
  failed_usage plan = record {
    prompt_tokens = plan.prompt_tokens;
    completion_tokens = pos 0;
    total_tokens = pos 0;
    status = "failed";
  }

  -- The body of the `try`.
  unfoldable pub answer : Call L → Fields → Io W (Response L)
  unfolding close_call
  answer call payload = do
    response ← gateway.complete payload
    usage ← lift (usage_from_response response call.plan gateway.token_estimator)
    gateway.admission.finalize_tokens call.lease usage.total_tokens false
    tell (gateway.record_usage usage)
    close_call call usage none
    pure (json_response response)

  -- The body of the `except Exception`.
  unfoldable pub fail : Call L → Exc → Io W (Response L)
  unfolding close_call
  fail call exc = do
    tell (gateway.capture exc)
    gateway.admission.finalize_tokens call.lease (pos 0) true
    tell (gateway.record_usage (failed_usage call.plan))
    close_call call (failed_usage call.plan) (some (code_or exc "internal_server_error"))
    raise exc

  unfoldable pub settle_call : Call L → Fields → Io W (Response L)
  unfolding answer fail
  settle_call call payload =
      finally (try_except (answer call payload) (fail call)) (gateway.admission.release call.lease)

  -- What the handler does before it admits the request.
  unfoldable pub screen :
      Option AuthContext → ChatCompletionRequest → Result (AuthContext × TokenPlan)
  screen none request = raised (app missing_api_key_error)
  screen (some context) request = elim (ensure_model_allowed context request.model) [
    | raised e ↦ raised e
    | ok _ ↦ elim (build_token_plan request gateway.token_estimator gateway.limits) [
      | raised e ↦ raised e
      | ok plan ↦ ok (context, plan)
    ]
  ]

  abbrev pub call_of :
      AuthContext → TokenPlan → Option String → ChatCompletionRequest → L → String → Call L
  call_of context plan request_id request lease record_id = record {
    context = context;
    request_id = text_or_empty request_id;
    model = request.model;
    lease = lease;
    plan = plan;
    record_id = record_id;
  }

  -- What the handler does once the audit has started.
  unfoldable pub serve :
      AuthContext
      → TokenPlan
      → Option String
      → ChatCompletionRequest
      → L
      → String
      → Io W (Response L)
  unfolding settle_call
  serve context plan request_id request lease record_id =
      let payload = normalize_chat_completion_payload request in
      if request.stream
      then pure (streaming_response payload lease plan record_id)
      else settle_call (call_of context plan request_id request lease record_id) payload

  abbrev pub audit_of : AuthContext → Option String → ChatCompletionRequest → AuditStart
  audit_of context request_id request =
      build_audit_start gateway.sha256_hex (text_or_empty request_id) context request.model
        request.messages

  -- What it does once it has the lease.
  unfoldable pub proceed :
      AuthContext → TokenPlan → Option String → ChatCompletionRequest → L → Io W (Response L)
  unfolding serve
  proceed context plan request_id request lease =
      tell gateway.bind_context
      >> (gateway.audit.start (audit_of context request_id request) >>= λ record_id.
          serve context plan request_id request lease record_id)

  unfoldable pub create_chat_completion :
      Option AuthContext → Option String → ChatCompletionRequest → Io W (Response L)
  unfolding proceed
  create_chat_completion auth_context request_id request =
      lift (screen auth_context request) >>= λ (context, plan).
      gateway.admission.admit context plan.estimated_total_tokens >>= λ lease.
      proceed context plan request_id request lease
