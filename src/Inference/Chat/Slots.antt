-- ===== src/Inference/Chat/Slots.antt =====
-- Leases under `create_chat_completion` of backend/api/routes/chat_completions.py: who gives back
-- what was admitted.
use ansuman_gpu_inference_se.Prelude.{
  ℕ, suc, ◌-◌, ℤ, pos, String, Bool, true, false, Option, none, some, ◌≡◌, refl, ap, ◌∙◌, arith,
  inl, inr, if◌then◌else◌,
}
use ansuman_gpu_inference_se.Json.{Fields}
use ansuman_gpu_inference_se.Io.{
  Exc, Result, ok, raised, is_raised, Io, pure, lift, ◌>>=◌, try_except, code_or, Result-cases,
}
use ansuman_gpu_inference_se.Io.Keeps.{
  bind_ok, bind_raised, Keeps, pure-Keeps, raise-Keeps, lift-Keeps, bind-Keeps, then-Keeps,
  try_except-Keeps, measure-finally,
}
use ansuman_gpu_inference_se.Auth.Keys.{AuthContext}
use ansuman_gpu_inference_se.Tokens.Plan.{ChatCompletionRequest, TokenPlan}
use ansuman_gpu_inference_se.Tokens.Usage.{UsageRecord, usage_from_response}
use ansuman_gpu_inference_se.Audit.Lifecycle.{AuditStart, AuditFinal, build_audit_final}
use ansuman_gpu_inference_se.Analytics.Events.{UsageEvent}
use ansuman_gpu_inference_se.Inference.Services.{
  AdmissionLaws, normalize_chat_completion_payload, usage_event_of, tell-Keeps, emit_usage-Keeps,
}
use ansuman_gpu_inference_se.Inference.Chat.{
  App, Call, Response, emit, close_call, answer, fail, settle_call, screen, proceed,
  create_chat_completion, failed_usage, serve, call_of, audit_of, streaming_response,
}

-- Only the admission service touches the count of leases that are held.
pub record AppLaws {W L : Type 0} (gateway : App W L) (held : W → ℕ) : Type 0 where
  pub admission : AdmissionLaws gateway.admission held
  pub start-Keeps : (a : AuditStart) → Keeps held (gateway.audit.start a)
  pub finalize-Keeps : (f : AuditFinal) → Keeps held (gateway.audit.finalize f)
  pub complete-Keeps : (p : Fields) → Keeps held (gateway.complete p)
  pub collect-Keeps : (e : UsageEvent) → Keeps held (gateway.collect e)
  pub held-capture : (e : Exc) (w : W) → held (gateway.capture e w) ≡ held w
  pub held-bind_context : (w : W) → held (gateway.bind_context w) ≡ held w
  pub held-record_usage : (u : UsageRecord) (w : W) → held (gateway.record_usage u w) ≡ held w

module _ {W L : Type 0} (gateway : App W L) {held : W → ℕ} (laws : AppLaws gateway held) where
  emit-Keeps :
      (call : Call L) (usage : UsageRecord) (latency_ms : Option ℤ) (error_code : Option String)
      → Keeps held (emit gateway call usage latency_ms error_code)
  unfolding emit
  emit-Keeps call usage latency_ms error_code = record {
    keeps = λ w.
        let event =
          usage_event_of (gateway.utc_now w) call.context call.request_id call.model usage
            latency_ms error_code in
        (emit_usage-Keeps gateway.collect held laws.collect-Keeps event).keeps w;
  }

  pub close_call-Keeps :
      (call : Call L) (usage : UsageRecord) (error_code : Option String)
      → Keeps held (close_call gateway call usage error_code)
  unfolding close_call
  close_call-Keeps call usage error_code = record {
    keeps = λ w.
        let latency_ms = some (gateway.elapsed_ms w) in
        let final = build_audit_final call.record_id usage latency_ms error_code in
        (then-Keeps held (laws.finalize-Keeps final)
            (emit-Keeps call usage latency_ms error_code)).keeps
          w;
  }

  answer-Keeps : (call : Call L) (payload : Fields) → Keeps held (answer gateway call payload)
  unfolding answer
  answer-Keeps call payload = bind-Keeps held (laws.complete-Keeps payload) λ response.
      bind-Keeps held
        (lift-Keeps held (usage_from_response response call.plan gateway.token_estimator))
        λ usage.
          then-Keeps held (laws.admission.finalize_tokens-Keeps call.lease usage.total_tokens false)
            (then-Keeps held
              (tell-Keeps held (gateway.record_usage usage) (laws.held-record_usage usage))
              (then-Keeps held (close_call-Keeps call usage none) (pure-Keeps held _)))

  fail-Keeps : (call : Call L) (exc : Exc) → Keeps held (fail gateway call exc)
  unfolding fail
  fail-Keeps call exc =
      let usage = failed_usage gateway call.plan in
      then-Keeps held (tell-Keeps held (gateway.capture exc) (laws.held-capture exc)) (
        then-Keeps held (laws.admission.finalize_tokens-Keeps call.lease (pos 0) true) (
          then-Keeps held
            (tell-Keeps held (gateway.record_usage usage) (laws.held-record_usage usage))
            (then-Keeps held
              (close_call-Keeps call usage (some (code_or exc "internal_server_error")))
              (raise-Keeps held exc))))

  held-settle_call :
      (call : Call L) (payload : Fields) (w : W)
      → held (settle_call gateway call payload w).1 ≡ held w - 1
  unfolding settle_call
  held-settle_call call payload w =
      let body = try_except (answer gateway call payload) (fail gateway call) in
      measure-finally held body (gateway.admission.release call.lease) w
      ∙ laws.admission.held-release call.lease (body w).1
      ∙ ap (λ n. n - 1)
          ((try_except-Keeps held (answer-Keeps call payload) (fail-Keeps call)).keeps w)

  held-serve :
      (context : AuthContext) (plan : TokenPlan) (request_id : Option String)
      (request : ChatCompletionRequest) (lease : L) (record_id : String) (w : W)
      → request.stream ≡ false
      → held (serve gateway context plan request_id request lease record_id w).1 ≡ held w - 1
  unfolding serve
  held-serve context plan request_id request lease record_id w h =
      let payload = normalize_chat_completion_payload request in
      let call = call_of gateway context plan request_id request lease record_id in
      ap
        (λ (b : Bool).
          held
            ((if b
                then pure (streaming_response payload lease plan record_id)
                else settle_call gateway call payload)
              w).1)
        h
      ∙ held-settle_call call payload w

  -- What the request was admitted with is given back, unless its audit does not start.
  held-proceed :
      (context : AuthContext) (plan : TokenPlan) (request_id : Option String)
      (request : ChatCompletionRequest) (lease : L) (w : W)
      → request.stream ≡ false
      → is_raised
          (gateway.audit.start
            (audit_of gateway context request_id request)
            (gateway.bind_context w)).0
        ≡ false
      → held (proceed gateway context plan request_id request lease w).1 ≡ held w - 1
  unfolding proceed
  held-proceed context plan request_id request lease w h starts =
      let audit = audit_of gateway context request_id request in
      let w1 = gateway.bind_context w in
      let kept = (laws.start-Keeps audit).keeps w1 ∙ laws.held-bind_context w in
      let next : String → Io W (Response L) =
        λ id. serve gateway context plan request_id request lease id in
      elim (Result-cases (gateway.audit.start audit w1).0) [
        | inr (e, failed) ↦ absurd (ground (arith, starts, failed))
        | inl (id, got) ↦
            ap (λ p. held p.1) (bind_ok (gateway.audit.start audit) next w1 got)
            ∙ held-serve context plan request_id request lease id (gateway.audit.start audit w1).1 h
            ∙ ap (λ n. n - 1) kept
      ]

  held-create_at :
      (auth_context : Option AuthContext) (request_id : Option String)
      (request : ChatCompletionRequest) (w : W)
      → request.stream ≡ false
      → ((a : AuditStart) (v : W) → is_raised (gateway.audit.start a v).0 ≡ false)
      → (r : Result (AuthContext × TokenPlan))
      → held
          ((lift r >>= λ (context, plan).
              gateway.admission.admit context plan.estimated_total_tokens >>= λ lease.
              proceed gateway context plan request_id request lease)
            w).1
        ≡ held w
  held-create_at auth_context request_id request w h starts (raised e) = refl
  held-create_at auth_context request_id request w h starts (ok (context, plan)) =
      let n = plan.estimated_total_tokens in
      let w1 = (gateway.admission.admit context n w).1 in
      let go_on : L → Io W (Response L) =
        λ lease. proceed gateway context plan request_id request lease in
      let admitted = laws.admission.held-admit context n w in
      elim (Result-cases (gateway.admission.admit context n w).0) [
        | inr (e, refused) ↦
            ap (λ p. held p.1) (bind_raised (gateway.admission.admit context n) go_on w refused)
            ∙ ground (arith, admitted, refused)
        | inl (lease, got) ↦
            ap (λ p. held p.1) (bind_ok (gateway.admission.admit context n) go_on w got)
            ∙ ground (
              arith,
              admitted,
              got,
              held-proceed context plan request_id request lease w1 h
                  (starts (audit_of gateway context request_id request) (gateway.bind_context w1)),
            )
      ]

  -- A request that asks for no stream leaves no lease behind, however it ends: refused, answered,
  -- failed at the upstream or in the accounting, or cancelled. This holds where its audit starts.
  pub create_chat_completion_settles :
      (auth_context : Option AuthContext) (request_id : Option String)
      (request : ChatCompletionRequest) (w : W)
      → request.stream ≡ false
      → ((a : AuditStart) (v : W) → is_raised (gateway.audit.start a v).0 ≡ false)
      → held (create_chat_completion gateway auth_context request_id request w).1 ≡ held w
  unfolding create_chat_completion
  create_chat_completion_settles auth_context request_id request w h starts =
      held-create_at auth_context request_id request w h starts
        (screen gateway auth_context request)

  -- When a request has been admitted and its audit does not start, it fails with what the audit
  -- raised, and its lease stays held for good: the start stands in front of the `try`.
  pub create_chat_completion_leaks :
      (auth_context : Option AuthContext) (request_id : Option String)
      (request : ChatCompletionRequest) (w : W) (context : AuthContext) (plan : TokenPlan)
      (lease : L) (e : Exc)
      → let admission = gateway.admission.admit context plan.estimated_total_tokens w in
        screen gateway auth_context request ≡ ok (context, plan)
        → admission.0 ≡ ok lease
        → (gateway.audit.start
            (audit_of gateway context request_id request)
            (gateway.bind_context admission.1)).0
          ≡ raised e
        → let (r, w') = create_chat_completion gateway auth_context request_id request w in
          (r ≡ raised e) × (held w' ≡ suc (held w))
  unfolding create_chat_completion proceed
  create_chat_completion_leaks auth_context request_id request w context plan lease e screened got
        failed =
      let n = plan.estimated_total_tokens in
      let audit = audit_of gateway context request_id request in
      let w1 = (gateway.admission.admit context n w).1 in
      let kept =
        (laws.start-Keeps audit).keeps (gateway.bind_context w1) ∙ laws.held-bind_context w1 in
      let next : String → Io W (Response L) =
        λ id. serve gateway context plan request_id request lease id in
      let go_on : L → Io W (Response L) = λ l. proceed gateway context plan request_id request l in
      let stops = bind_raised (gateway.audit.start audit) next (gateway.bind_context w1) failed in
      let ends = bind_ok (gateway.admission.admit context n) go_on w got ∙ stops in
      rw screened (
        ap (λ p. p.0) ends,
        ap (λ p. held p.1) ends ∙ kept ∙ ground (arith, laws.admission.held-admit context n w, got),
      )

  -- A request without a context, or whose model or size is refused, touches nothing.
  pub create_chat_completion_refuses :
      (auth_context : Option AuthContext) (request_id : Option String)
      (request : ChatCompletionRequest) (w : W) (e : Exc)
      → screen gateway auth_context request ≡ raised e
      → create_chat_completion gateway auth_context request_id request w ≡ (raised e, w)
  unfolding create_chat_completion
  create_chat_completion_refuses auth_context request_id request w e h = rw h refl
