-- ===== src/App.antt =====
-- The state of the application: the services that backend/api/routes and backend/middlewares/auth.py
-- build when they are first asked for, and the start and the end of backend/core/lifecycle.py and
-- backend/main.py. A client of Postgres or Redis is known by a number; a service by its clients.
pub mod Closed
mod Examples
use ansuman_gpu_inference_se.Prelude.{
  ℕ, suc, Bool, true, false, Option, none, some, List, [], ◌∷◌, ◌==◌, if◌then◌else◌,
}
use ansuman_gpu_inference_se.Io.{Exc, Result, ok, raised, Io, pure, ◌>>=◌, ◌>>◌, finally}

-- `app.state`, the clients that are open, and the number of the next one.
pub record State : Type 0 where
  pub ready : Bool
  pub postgres_engine : Option ℕ
  pub redis_client : Option ℕ
  pub auth_service : Option ℕ
  pub admission_service : Option ℕ
  pub audit_service : Option ℕ
  pub batch_service : Option (ℕ × ℕ)
  pub has_token_estimator : Bool
  pub has_analytics_collector : Bool
  pub engines : List ℕ
  pub clients : List ℕ
  pub fresh : ℕ

-- `create_postgres_engine(settings.database_url)`, put into `app.state.postgres_engine`.
unfoldable pub open_engine : State → State
open_engine s = record s {
  postgres_engine = some s.fresh;
  engines = s.fresh ∷ s.engines;
  fresh = suc s.fresh;
}

-- `RedisClient.from_url(settings.redis_url)`, put into `app.state.redis_client`.
unfoldable pub open_redis : State → State
open_redis s = record s {
  redis_client = some s.fresh;
  clients = s.fresh ∷ s.clients;
  fresh = suc s.fresh;
}

-- `getattr(app.state, "postgres_engine", None)`, or a new one.
unfoldable pub ensure_engine : State → State
unfolding open_engine
ensure_engine s = elim (s.postgres_engine) [ none ↦ open_engine s | some e ↦ s ]

unfoldable pub ensure_redis : State → State
unfolding open_redis
ensure_redis s = elim (s.redis_client) [ none ↦ open_redis s | some c ↦ s ]

abbrev pub number : Option ℕ → ℕ
number none = 0
number (some n) = n

-- `_get_or_create_auth_service`
unfoldable pub get_or_create_auth_service : State → State
unfolding open_engine
get_or_create_auth_service s = elim (s.auth_service) [
  | none ↦ let t = open_engine s in record t { auth_service = t.postgres_engine }
  | some e ↦ s
]

-- `_get_or_create_admission_service`
unfoldable pub get_or_create_admission_service : State → State
unfolding open_redis
get_or_create_admission_service s = elim (s.admission_service) [
  | none ↦ let t = open_redis s in record t { admission_service = t.redis_client }
  | some c ↦ s
]

-- `_get_or_create_audit_service`
unfoldable pub get_or_create_audit_service : State → State
unfolding ensure_engine
get_or_create_audit_service s = elim (s.audit_service) [
  | none ↦ let t = ensure_engine s in record t { audit_service = t.postgres_engine }
  | some e ↦ s
]

-- `_get_or_create_batch_service`
unfoldable pub get_or_create_batch_service : State → State
unfolding ensure_engine ensure_redis
get_or_create_batch_service s = elim (s.batch_service) [
  | none ↦
      let t = ensure_redis (ensure_engine s) in
      record t { batch_service = some (number t.postgres_engine, number t.redis_client) }
  | some b ↦ s
]

-- `_get_or_create_token_estimator` and `_get_or_create_analytics_collector`
unfoldable pub get_or_create_token_estimator : State → State
get_or_create_token_estimator s = record s { has_token_estimator = true }

unfoldable pub get_or_create_analytics_collector : State → State
get_or_create_analytics_collector s = record s { has_analytics_collector = true }

-- What a handler asks for.
pub data Demand : Type 0 where
  auth admission audit batch token_estimator analytics_collector : Demand

unfoldable pub demand : Demand → State → State
unfolding get_or_create_auth_service get_or_create_admission_service get_or_create_audit_service
    get_or_create_batch_service get_or_create_token_estimator get_or_create_analytics_collector
demand auth s = get_or_create_auth_service s
demand admission s = get_or_create_admission_service s
demand audit s = get_or_create_audit_service s
demand batch s = get_or_create_batch_service s
demand token_estimator s = get_or_create_token_estimator s
demand analytics_collector s = get_or_create_analytics_collector s

unfoldable pub demands : List Demand → State → State
unfolding demand
demands [] s = s
demands (d ∷ ds) s = demands ds (demand d s)

abbrev pub without : ℕ → List ℕ → List ℕ
without n [] = []
without n (m ∷ ms) = let rest = without n ms in if m == n then rest else m ∷ rest

-- `close_vllm` closes the vLLM client, which the application closes where it has made it itself;
-- `dispose` and `aclose` close an engine and a Redis client.
module _ {W : Type 0} (close_vllm : Io W (Unit {0})) (dispose aclose : ℕ → Io W (Unit {0})) where
  abbrev pub beside : State → State → Result (Unit {0}) × W → Result (Unit {0}) × (State × W)
  beside closed s (ok _, w) = (ok tt, (closed, w))
  beside closed s (raised e, w) = (raised e, (s, w))

  abbrev pub dispose_engine : Io (State × W) (Unit {0})
  dispose_engine (s, w) = elim (s.postgres_engine) [
    | none ↦ (ok tt, (s, w))
    | some e ↦ beside (record s { engines = without e s.engines }) s (dispose e w)
  ]

  abbrev pub aclose_redis : Io (State × W) (Unit {0})
  aclose_redis (s, w) = elim (s.redis_client) [
    | none ↦ (ok tt, (s, w))
    | some c ↦ beside (record s { clients = without c s.clients }) s (aclose c w)
  ]

  -- `shutdown`
  unfoldable pub shutdown : Io (State × W) (Unit {0})
  shutdown (s, w) = (dispose_engine >> aclose_redis) (record s { ready = false }, w)

  abbrev pub close_client : Bool → Io (State × W) (Unit {0})
  close_client true (s, w) = beside s s (close_vllm w)
  close_client false (s, w) = (ok tt, (s, w))

  -- The `finally` of the lifespan in `create_app`.
  unfoldable pub leave_lifespan : Bool → Io (State × W) (Unit {0})
  unfolding shutdown
  leave_lifespan owns_vllm_client = close_client owns_vllm_client >> shutdown

-- `startup`: the state in which the application begins to serve, with the services that `create_app`
-- was given already set.
abbrev pub startup : State → State
startup s = record s { ready = true }
