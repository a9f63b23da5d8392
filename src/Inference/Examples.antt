-- ===== src/Inference/Examples.antt =====
-- A gateway whose world is the number of leases that are held, and the theorems at its requests.
use ansuman_gpu_inference_se.Prelude.{
  ℕ, suc, ◌-◌, ◌+ℤ◌, ◌≤ℤ◌, ◌↔◌, arith, pos, String, ◌≡◌, refl, true, false, none, some, [], ◌∷◌,
  Option,
}
use ansuman_gpu_inference_se.Text.{Text, codes}
use ansuman_gpu_inference_se.Json.{Json, end, get}
use ansuman_gpu_inference_se.Io.{app, error, ok, raised, Io, pure, raise}
use ansuman_gpu_inference_se.Io.Keeps.{Keeps}
use ansuman_gpu_inference_se.Auth.Keys.{AuthContext, ensure_model_allowed, model_not_allowed}
use ansuman_gpu_inference_se.Tokens.Estimate.{estimate_prompt_tokens}
use ansuman_gpu_inference_se.Tokens.Estimate.Counts.{sum_tokens}
use ansuman_gpu_inference_se.Inference.Planned.{allowed_output, build_token_plan_covers}
use ansuman_gpu_inference_se.Tokens.Plan.{ChatCompletionRequest, TokenPlan, build_token_plan}
use ansuman_gpu_inference_se.Vllm.Stream.{Stream, line, waits, fails}
use ansuman_gpu_inference_se.Inference.Services.{
  AdmissionController, emit_usage, normalize_chat_completion_payload,
}
use ansuman_gpu_inference_se.Inference.Chat.{App, Call, screen, create_chat_completion}
use ansuman_gpu_inference_se.Inference.Chat.Slots.{
  AppLaws, create_chat_completion_settles, create_chat_completion_leaks,
  create_chat_completion_refuses,
}
use ansuman_gpu_inference_se.Inference.Streaming.{Connection, stream_response}
use ansuman_gpu_inference_se.Inference.Streaming.Loop.{ConnectionLaws}
use ansuman_gpu_inference_se.Inference.Streaming.Slots.{
  Steady, stream_response_settles, stream_response_leaks,
}

abbrev itself : ℕ → ℕ
itself n = n

abbrev quiet : {A : Type 0} → A → ℕ → ℕ
quiet a n = n

abbrev admission : AdmissionController ℕ (Unit {0})
admission = record {
  admit = λ c n w. (ok tt, suc w);
  finalize_tokens = λ l n b. pure tt;
  release = λ l w. (ok tt, w - 1);
}

-- The upstream fails with a text, and the two calls of the audit are given.
abbrev gateway_of : Io ℕ String → Io ℕ (Unit {0}) → App ℕ (Unit {0})
gateway_of start finalize = record {
  admission = admission;
  audit = record { start = λ a. start; finalize = λ f. finalize };
  complete = λ p. raise (error "connection reset");
  collect = λ e. pure true;
  capture = λ e w. w;
  bind_context = itself;
  record_usage = λ u w. w;
  elapsed_ms = λ w. pos 12;
  utc_now = λ w. 0;
  token_estimator = λ t. pos 1;
  limits = record {
    max_input_tokens = pos 100;
    max_output_tokens = pos 100;
    max_total_tokens = pos 150;
  };
  sha256_hex = λ t. "hash";
}

gateway_laws :
    (start : Io ℕ String) (finalize : Io ℕ (Unit {0}))
    → Keeps itself start
    → Keeps itself finalize
    → AppLaws (gateway_of start finalize) itself
gateway_laws start finalize h k = record {
  admission = record {
    held-admit = λ c n w. refl;
    held-release = λ l w. refl;
    finalize_tokens-Keeps = λ l n b. record { keeps = λ w. refl };
  };
  start-Keeps = λ a. h;
  finalize-Keeps = λ f. k;
  complete-Keeps = λ p. record { keeps = λ w. refl };
  collect-Keeps = λ e. record { keeps = λ w. refl };
  held-capture = λ e w. refl;
  held-bind_context = λ w. refl;
  held-record_usage = λ u w. refl;
}

abbrev steady_gateway : App ℕ (Unit {0})
steady_gateway = gateway_of (pure "audit_1") (pure tt)

abbrev no_audit : App ℕ (Unit {0})
no_audit = gateway_of (raise (error "database is down")) (pure tt)

abbrev no_final : App ℕ (Unit {0})
no_final = gateway_of (pure "audit_1") (raise (error "database is down"))

steady_laws : AppLaws steady_gateway itself
steady_laws = gateway_laws _ _ (record { keeps = λ w. refl }) (record { keeps = λ w. refl })

no_audit_laws : AppLaws no_audit itself
no_audit_laws = gateway_laws _ _ (record { keeps = λ w. refl }) (record { keeps = λ w. refl })

no_final_laws : AppLaws no_final itself
no_final_laws = gateway_laws _ _ (record { keeps = λ w. refl }) (record { keeps = λ w. refl })

abbrev caller : AuthContext
caller = record { api_key_id = "k"; user_id = "u"; project_id = "p"; allowed_models = none }

abbrev stranger : AuthContext
stranger = record {
  api_key_id = "k";
  user_id = "u";
  project_id = "p";
  allowed_models = some ("other" ∷ []);
}

abbrev request : ChatCompletionRequest
request = record {
  model = "llama";
  messages = record { role = codes "user"; content = codes "hi" } ∷ [];
  stream = false;
  max_tokens = some (pos 10);
  others = end;
}

abbrev plan : TokenPlan
plan = record {
  prompt_tokens = pos 8;
  max_completion_tokens = pos 10;
  estimated_total_tokens = pos 18;
}

build_token_plan_covers_example :
    let prompt = sum_tokens steady_gateway.token_estimator request.messages +ℤ pos 2 in
    let output =
      allowed_output (get "max_tokens" (normalize_chat_completion_payload request)) (pos 100) in
    (build_token_plan request steady_gateway.token_estimator steady_gateway.limits ≡ ok plan) ↔ (
      (plan ≡ record {
        prompt_tokens = prompt;
        max_completion_tokens = output;
        estimated_total_tokens = prompt +ℤ output;
      })
      × (output ≤ℤ pos 100)
      × (prompt ≤ℤ pos 100)
      × (prompt +ℤ output ≤ℤ pos 150))
unfolding get
build_token_plan_covers_example =
    build_token_plan_covers request steady_gateway.token_estimator steady_gateway.limits plan
      (omega arith) refl

-- The upstream fails, and the lease is given back all the same.
create_chat_completion_settles_example :
    (create_chat_completion steady_gateway (some caller) (some "r") request 3).1 ≡ 3
create_chat_completion_settles_example =
    create_chat_completion_settles steady_gateway steady_laws (some caller) (some "r") request 3
      refl (λ a v. refl)

create_chat_completion_leaks_example :
    let (r, w') = create_chat_completion no_audit (some caller) (some "r") request 3 in
    (r ≡ raised (error "database is down")) × (w' ≡ 4)
unfolding screen ensure_model_allowed build_token_plan estimate_prompt_tokens ◌+ℤ◌
create_chat_completion_leaks_example =
    create_chat_completion_leaks no_audit no_audit_laws (some caller) (some "r") request 3 caller
      plan tt (error "database is down") refl refl refl

create_chat_completion_refuses_example :
    create_chat_completion steady_gateway (some stranger) (some "r") request 3
    ≡ (raised (app model_not_allowed), 3)
unfolding screen ensure_model_allowed
create_chat_completion_refuses_example =
    create_chat_completion_refuses steady_gateway steady_laws (some stranger) (some "r") request 3
      (app model_not_allowed) refl

-- A client that takes every event.
abbrev client : Connection ℕ
client = record {
  is_disconnected = pure false;
  send = λ t. pure tt;
  close = pure tt;
  record_started = itself;
  record_ttft = itself;
  record_finished = itself;
}

client_laws : ConnectionLaws client itself
client_laws = record {
  is_disconnected-Keeps = record { keeps = λ w. refl };
  send-Keeps = λ t. record { keeps = λ w. refl };
  close-Keeps = record { keeps = λ w. refl };
  held-record_started = λ w. refl;
  held-record_ttft = λ w. refl;
  held-record_finished = λ w. refl;
}

abbrev no_json : Text → Option Json
no_json t = none

abbrev call : Call (Unit {0})
call = record {
  context = caller;
  request_id = "r";
  model = "llama";
  lease = tt;
  plan = plan;
  record_id = "audit_1";
}

-- An upstream that stalls and then breaks off.
abbrev upstream : Stream
upstream = line (codes "data: {}") (waits (fails (error "connection reset")))

steady : Steady steady_gateway client no_json steady_laws client_laws
unfolding emit_usage
steady = record {
  close-Returns = record { returns = λ w. refl };
  finalize_tokens-Returns = λ l n b. record { returns = λ w. refl };
  finalize-Returns = λ f. record { returns = λ w. refl };
  emit-Returns = λ e. record { returns = λ w. refl };
}

stream_response_settles_example :
    (stream_response steady_gateway client no_json call upstream 3).1 ≡ 3 - 1
stream_response_settles_example =
    stream_response_settles steady_gateway client no_json steady_laws client_laws steady call
      upstream 3

stream_response_leaks_example :
    let (r, w') = stream_response no_final client no_json call upstream 3 in
    (r ≡ raised (error "database is down")) × (w' ≡ 3)
stream_response_leaks_example =
    stream_response_leaks no_final client no_json no_final_laws client_laws
      (record { returns = λ w. refl }) (λ l n b. record { returns = λ w. refl })
      (error "database is down") (λ f w. refl) call upstream 3
