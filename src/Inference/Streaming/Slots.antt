-- ===== src/Inference/Streaming/Slots.antt =====
-- Leases and usage under `_stream_response` of backend/api/routes/chat_completions.py.
use ansuman_gpu_inference_se.Prelude.{
  ℕ, ◌-◌, ℤ, String, Bool, false, Option, some, ◌≡◌, refl, ap, ◌∙◌, [],
}
use ansuman_gpu_inference_se.Text.{Text}
use ansuman_gpu_inference_se.Json.{Json}
use ansuman_gpu_inference_se.Io.{Exc, app, error, cancelled, Result, ok, raised, ◌>>◌}
use ansuman_gpu_inference_se.Io.Keeps.{
  bind_raised, Keeps, pure-Keeps, raise-Keeps, Returns, then-Returns, Lowers, then-Lowers,
  Lowers-then, then_returned,
}
use ansuman_gpu_inference_se.Tokens.Usage.{UsageRecord, usage_from_stream_text}
use ansuman_gpu_inference_se.Vllm.Stream.{Stream, stream_with_heartbeats, ensure_done_event}
use ansuman_gpu_inference_se.Audit.Lifecycle.{AuditFinal, build_audit_final}
use ansuman_gpu_inference_se.Analytics.Events.{UsageEvent}
use ansuman_gpu_inference_se.Inference.Services.{usage_event_of, emit_usage, tell, tell-Keeps}
use ansuman_gpu_inference_se.Inference.Chat.{App, Call, emit, close_call}
use ansuman_gpu_inference_se.Inference.Chat.Slots.{AppLaws, close_call-Keeps}
use ansuman_gpu_inference_se.Inference.Streaming.{
  Connection, Ended, status_of, error_code_of, is_failed, consume, report, conclude, settle_stream,
  stream_response,
}
use ansuman_gpu_inference_se.Inference.Streaming.Loop.{ConnectionLaws, consume-Keeps, report-Keeps}

module _ {W L : Type 0} (gateway : App W L) (connection : Connection W)
    (json_loads : Text → Option Json) {held : W → ℕ} (laws : AppLaws gateway held)
    (links : ConnectionLaws connection held) where
  -- The calls of the `finally` in front of the release all return.
  pub record Steady : Type 0 where
    pub close-Returns : Returns connection.close
    pub finalize_tokens-Returns :
        (l : L) (n : ℤ) (b : Bool) → Returns (gateway.admission.finalize_tokens l n b)
    pub finalize-Returns : (f : AuditFinal) → Returns (gateway.audit.finalize f)
    pub emit-Returns : (e : UsageEvent) → Returns (emit_usage gateway.collect e)

  close_call-Returns :
      Steady
      → (call : Call L) (usage : UsageRecord) (code : Option String)
      → Returns (close_call gateway call usage code)
  unfolding close_call emit
  close_call-Returns steady call usage code = record {
    returns = λ w.
        let latency_ms = some (gateway.elapsed_ms w) in
        let emits : Returns (emit gateway call usage latency_ms code) = record {
          returns = λ v.
              (steady.emit-Returns (
                  usage_event_of (gateway.utc_now v) call.context call.request_id call.model usage
                    latency_ms code)).returns
                v;
        } in
        (then-Returns
            (steady.finalize-Returns (build_audit_final call.record_id usage latency_ms code))
            emits).returns
          w;
  }

  settle_stream-Lowers :
      Steady
      → (call : Call L) (ended : Ended)
      → Lowers held (settle_stream gateway connection json_loads call ended)
  unfolding settle_stream
  settle_stream-Lowers steady call ended =
      let usage =
        usage_from_stream_text ended.completion_text call.plan gateway.token_estimator
          (status_of ended.outcome) in
      let release : Lowers held (gateway.admission.release call.lease) = record {
        lowers = laws.admission.held-release call.lease;
      } in
      let shut = links.close-Keeps in
      let shuts = steady.close-Returns in
      then-Lowers held shut shuts (
        then-Lowers held shut shuts (
          then-Lowers held shut shuts (
            then-Lowers held
              (laws.admission.finalize_tokens-Keeps call.lease usage.total_tokens
                (is_failed ended.outcome))
              (steady.finalize_tokens-Returns call.lease usage.total_tokens
                (is_failed ended.outcome))
              (then-Lowers held
                (tell-Keeps held (gateway.record_usage usage) (laws.held-record_usage usage))
                (record { returns = λ w. refl })
                (then-Lowers held
                  (close_call-Keeps gateway laws call usage (error_code_of ended.outcome))
                  (close_call-Returns steady call usage (error_code_of ended.outcome))
                  (Lowers-then held release
                    (tell-Keeps held connection.record_finished links.held-record_finished)))))))

  conclude-Keeps : (r : Result Bool) → Keeps held (conclude gateway connection json_loads r)
  conclude-Keeps (ok _) = pure-Keeps held tt
  conclude-Keeps (raised e) = raise-Keeps held e

  report-Returns : (r : Result Bool) → Returns (report gateway connection json_loads r)
  report-Returns (ok _) = record { returns = λ w. refl }
  report-Returns (raised (app e)) = record { returns = λ w. refl }
  report-Returns (raised (error e)) = record { returns = λ w. refl }
  report-Returns (raised cancelled) = record { returns = λ w. refl }

  -- A stream gives back the lease of its request however it ends: at the end of the upstream, at a
  -- failure, at a client that is gone, or cancelled at any event. This holds where closing the
  -- iterators and settling the tokens, the audit and the usage event do not raise.
  pub stream_response_settles :
      Steady
      → (call : Call L) (upstream : Stream) (w : W)
      → held (stream_response gateway connection json_loads call upstream w).1 ≡ held w - 1
  unfolding stream_response
  stream_response_settles steady call upstream w =
      let started = connection.record_started w in
      let (ended, w') =
        consume gateway connection json_loads (ensure_done_event (stream_with_heartbeats upstream))
          [] false started in
      let kept =
        consume-Keeps gateway connection json_loads laws links
          (ensure_done_event (stream_with_heartbeats upstream)) [] false started in
      (then-Lowers held (report-Keeps gateway connection json_loads laws links ended.outcome)
          (report-Returns ended.outcome)
          (Lowers-then held (settle_stream-Lowers steady call ended)
            (conclude-Keeps ended.outcome))).lowers
        w'
      ∙ ap (λ n. n - 1) (kept ∙ links.held-record_started w)

  close_call_stops :
      (e : Exc)
      → ((f : AuditFinal) (w : W) → (gateway.audit.finalize f w).0 ≡ raised e)
      → (call : Call L) (usage : UsageRecord) (code : Option String) (w : W)
      → (close_call gateway call usage code w).0 ≡ raised e
  unfolding close_call
  close_call_stops e refuses call usage code w =
      let latency_ms = some (gateway.elapsed_ms w) in
      let final = build_audit_final call.record_id usage latency_ms code in
      let next = emit gateway call usage latency_ms code in
      ap (λ p. p.0) (bind_raised (gateway.audit.finalize final) (λ _. next) w (refuses final w))

  settle_stream_stops :
      Returns connection.close
      → ((l : L) (n : ℤ) (b : Bool) → Returns (gateway.admission.finalize_tokens l n b))
      → (e : Exc) → ((f : AuditFinal) (w : W) → (gateway.audit.finalize f w).0 ≡ raised e)
      → (call : Call L) (ended : Ended) (w : W)
      → let (r, w') = settle_stream gateway connection json_loads call ended w in
        (r ≡ raised e) × (held w' ≡ held w)
  unfolding settle_stream
  settle_stream_stops shuts settles e refuses call ended w =
      let usage =
        usage_from_stream_text ended.completion_text call.plan gateway.token_estimator
          (status_of ended.outcome) in
      let settle =
        gateway.admission.finalize_tokens call.lease usage.total_tokens (is_failed ended.outcome) in
      let code = error_code_of ended.outcome in
      let closing = close_call gateway call usage code in
      let last = gateway.admission.release call.lease >> tell connection.record_finished in
      let rest = tell (gateway.record_usage usage) >> (closing >> last) in
      let shut = connection.close in
      let w1 = (shut w).1 in
      let w2 = (shut w1).1 in
      let w3 = (shut w2).1 in
      let w4 = (settle w3).1 in
      let w5 = gateway.record_usage usage w4 in
      let ends =
        then_returned (shut >> (shut >> (settle >> rest))) shuts w
        ∙ then_returned (shut >> (settle >> rest)) shuts w1
        ∙ then_returned (settle >> rest) shuts w2
        ∙ then_returned rest (settles call.lease usage.total_tokens (is_failed ended.outcome)) w3
        ∙ bind_raised closing (λ _. last) w5 (close_call_stops e refuses call usage code w5) in
      let kept = links.close-Keeps.keeps in
      (
        ap (λ p. p.0) ends,
        ap (λ p. held p.1) ends
            ∙ (close_call-Keeps gateway laws call usage code).keeps w5
            ∙ laws.held-record_usage usage w4
            ∙ (laws.admission.finalize_tokens-Keeps call.lease usage.total_tokens
                  (is_failed ended.outcome)).keeps
                w3
            ∙ kept w2
            ∙ kept w1
            ∙ kept w,
      )

  -- While the audit of a request cannot be finalized, and closing the iterators and settling the tokens
  -- return, a stream ends with the error of the audit and its lease stays held for good: the release
  -- stands behind the audit in one `finally`.
  pub stream_response_leaks :
      Returns connection.close
      → ((l : L) (n : ℤ) (b : Bool) → Returns (gateway.admission.finalize_tokens l n b))
      → (e : Exc) → ((f : AuditFinal) (w : W) → (gateway.audit.finalize f w).0 ≡ raised e)
      → (call : Call L) (upstream : Stream) (w : W)
      → let (r, w') = stream_response gateway connection json_loads call upstream w in
        (r ≡ raised e) × (held w' ≡ held w)
  unfolding stream_response
  stream_response_leaks shuts settles e refuses call upstream w =
      let started = connection.record_started w in
      let events = ensure_done_event (stream_with_heartbeats upstream) in
      let (ended, w') = consume gateway connection json_loads events [] false started in
      let settle = settle_stream gateway connection json_loads call ended in
      let last = conclude gateway connection json_loads ended.outcome in
      let told = report gateway connection json_loads ended.outcome in
      let w1 = (told w').1 in
      let (stops, held_on) = settle_stream_stops shuts settles e refuses call ended w1 in
      let ends =
        then_returned (settle >> last) (report-Returns ended.outcome) w'
        ∙ bind_raised settle (λ _. last) w1 stops in
      (
        ap (λ p. p.0) ends,
        ap (λ p. held p.1) ends
            ∙ held_on
            ∙ (report-Keeps gateway connection json_loads laws links ended.outcome).keeps w'
            ∙ consume-Keeps gateway connection json_loads laws links events [] false started
            ∙ links.held-record_started w,
      )
