-- ===== src/Observability/Sentry/Examples.antt =====
-- A Sentry that accepts every report, and the theorem at it.
use ansuman_gpu_inference_se.Prelude.{
  ℕ, suc, ◌+◌, false, true, ◌≡◌, refl, String, Bool, Option, none, some, List, [], ◌∷◌, arith,
}
use ansuman_gpu_inference_se.Json.{Json}
use ansuman_gpu_inference_se.Io.{Exc, error, ok, pure}
use ansuman_gpu_inference_se.Observability.Sentry.{Sdk, Request}
use ansuman_gpu_inference_se.Observability.Sentry.Once.{
  SdkLaws, remaining, capture_all, capture_all_once,
}

-- The world counts the reports; a sample rate is a percentage.
abbrev sdk : Sdk ℕ ℕ
sdk = record {
  init = λ s. pure tt;
  push_scope = pure tt;
  pop_scope = pure tt;
  configure_scope = pure tt;
  set_tag = λ k v. pure tt;
  set_context = λ k v. pure tt;
  set_user = λ id. pure tt;
  capture_exception = λ e w. (ok (some "event"), suc w);
}

abbrev itself : ℕ → ℕ
itself w = w

sdk_laws : SdkLaws sdk itself
sdk_laws = record {
  sent-capture_exception = λ e w. omega arith;
  push_scope-Keeps = record { keeps = λ w. refl };
  pop_scope-Keeps = record { keeps = λ w. refl };
  pop_scope-Returns = record { returns = λ w. refl };
  configure_scope-Keeps = record { keeps = λ w. refl };
  set_tag-Keeps = λ k v. record { keeps = λ w. refl };
  set_context-Keeps = λ k v. record { keeps = λ w. refl };
  set_user-Keeps = λ id. record { keeps = λ w. refl };
}

abbrev request : Request
request = record {
  path = "/v1/chat/completions";
  method = "POST";
  request_id = some "req_1";
  auth_context = none;
  sentry_exception_captured = false;
}

abbrev unscrubbed : Json → Json
unscrubbed value = value

-- The chat handler knows the model and the stream, the handler of errors does not.
abbrev captures : List (Exc × (Option String × Option Bool))
captures = (error "a", (some "llama", some true)) ∷ (error "a", (none, none)) ∷ []

capture_all_once_example :
    let (request', w') = capture_all (some sdk) unscrubbed true captures request 0 in
    w' + remaining request' ≡ 0 + remaining request
capture_all_once_example = capture_all_once sdk unscrubbed sdk_laws true request captures 0
