-- ===== src/App/Examples.antt =====
-- An application that has just begun to serve, and the theorems at it.
use ansuman_gpu_inference_se.Prelude.{ℕ, true, false, ◌≡◌, refl, none, List, [], ◌∷◌, arith}
use ansuman_gpu_inference_se.Io.{ok, Io}
use ansuman_gpu_inference_se.App.{
  State, Demand, auth, admission, audit, batch, demand, demands, startup, leave_lifespan,
}
use ansuman_gpu_inference_se.App.Closed.{IsTracked, Closing, demands_close, admission_leaks_client}

abbrev serving : State
serving = startup (record {
  ready = false;
  postgres_engine = none;
  redis_client = none;
  auth_service = none;
  admission_service = none;
  audit_service = none;
  batch_service = none;
  has_token_estimator = false;
  has_analytics_collector = false;
  engines = [];
  clients = [];
  fresh = 0;
})

-- The world is of no interest.
abbrev close_vllm : Io ℕ (Unit {0})
close_vllm w = (ok tt, w)

abbrev close : ℕ → Io ℕ (Unit {0})
close n w = (ok tt, w)

closing : Closing close_vllm close close
closing = record {
  vllm = record { returns = λ w. refl };
  engine = λ e. record { returns = λ w. refl };
  redis = λ c. record { returns = λ w. refl };
}

serving-IsTracked : IsTracked serving
serving-IsTracked = record { engines = refl; clients = refl }

-- A chat request in front of a batch job.
abbrev chat_first : List Demand
chat_first = auth ∷ admission ∷ audit ∷ batch ∷ []

demands_close_example :
    let (r, (s', w')) =
      leave_lifespan close_vllm close close true (demands chat_first serving, 0) in
    (r ≡ ok tt) × (s'.engines ≡ []) × (s'.clients ≡ []) × (s'.ready ≡ false)
unfolding demands
demands_close_example =
    demands_close close_vllm close close closing true chat_first serving 0 serving-IsTracked
      (refl, (refl, (refl, (refl, tt))))

-- A batch job in front of the first chat request.
abbrev batch_first : State
batch_first = demands (auth ∷ batch ∷ []) serving

batch_first-IsTracked : IsTracked batch_first
unfolding demands
batch_first-IsTracked = record { engines = refl; clients = refl }

admission_leaks_client_example :
    let (r, (s', w')) =
      leave_lifespan close_vllm close close true (demand admission batch_first, 0) in
    (r ≡ ok tt) × (s'.clients ≡ 1 ∷ [])
unfolding demands
admission_leaks_client_example =
    admission_leaks_client close_vllm close close closing true batch_first 1 0 batch_first-IsTracked
      refl refl (omega arith)
