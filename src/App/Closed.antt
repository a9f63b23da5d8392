-- ===== src/App/Closed.antt =====
-- Which clients of Postgres and Redis are still open when the application of backend/main.py has ended.
use ansuman_gpu_inference_se.Prelude.{
  ℕ, ◌<◌, Bool, true, false, not, ◌||◌, Option, none, some, List, [], ◌∷◌, ◌≡◌, refl, ap, ◌∙◌,
  arith, ◌==◌, Option-cases, inl, inr,
}
use ansuman_gpu_inference_se.Io.{ok, Io, ◌>>◌}
use ansuman_gpu_inference_se.Io.Keeps.{Returns, bind_ok}
use ansuman_gpu_inference_se.App.{
  State, Demand, auth, admission, audit, batch, token_estimator, analytics_collector, demand,
  demands, without, dispose_engine, aclose_redis, shutdown, close_client, leave_lifespan,
}

abbrev listed : Option ℕ → List ℕ
listed none = []
listed (some n) = n ∷ []

-- The clients that are open are those that `app.state` names.
pub record IsTracked (s : State) : Type 0 where
  pub engines : s.engines ≡ listed s.postgres_engine
  pub clients : s.clients ≡ listed s.redis_client

abbrev is_none : Option ℕ → Bool
is_none none = true
is_none (some n) = false

-- The key service and the admission service open a client of their own whatever is open: they are asked
-- for first, or are there.
abbrev pub fits : Demand → State → Bool
fits auth s = not (is_none s.auth_service) || is_none s.postgres_engine
fits admission s = not (is_none s.admission_service) || is_none s.redis_client
fits _ s = true

abbrev pub Fit : List Demand → State → Type 0
Fit [] s = Unit {0}
Fit (d ∷ ds) s = (fits d s ≡ true) × Fit ds (demand d s)

demand-IsTracked : (d : Demand) (s : State) → fits d s ≡ true → IsTracked s → IsTracked (demand d s)
unfolding demand
demand-IsTracked auth s f h = ground arith
demand-IsTracked admission s f h = ground arith
demand-IsTracked audit s f h = ground arith
demand-IsTracked batch s f h = ground arith
demand-IsTracked token_estimator s f h = ground arith
demand-IsTracked analytics_collector s f h = ground arith

demands-IsTracked :
    (ds : List Demand) (s : State) → Fit ds s → IsTracked s → IsTracked (demands ds s)
unfolding demands
demands-IsTracked [] s f h = h
demands-IsTracked (d ∷ ds) s f h =
    demands-IsTracked ds (demand d s) f.1 (demand-IsTracked d s f.0 h)

-- What is open once the client that `app.state` names is closed.
abbrev closing_of : Option ℕ → List ℕ → List ℕ
closing_of none ns = ns
closing_of (some n) ns = without n ns

closing_of-listed : (o : Option ℕ) → closing_of o (listed o) ≡ []
closing_of-listed none = refl
closing_of-listed (some n) = ground arith

abbrev ended : State → State
ended s = record s {
  ready = false;
  engines = closing_of s.postgres_engine s.engines;
  clients = closing_of s.redis_client s.clients;
}

module _ {W : Type 0} (close_vllm : Io W (Unit {0})) (dispose aclose : ℕ → Io W (Unit {0})) where
  abbrev leave : Bool → Io (State × W) (Unit {0})
  leave = leave_lifespan close_vllm dispose aclose

  -- Closing does not fail.
  pub record Closing : Type 0 where
    pub vllm : Returns close_vllm
    pub engine : (e : ℕ) → Returns (dispose e)
    pub redis : (c : ℕ) → Returns (aclose c)

  -- The call returns, and does this to the state of the application.
  record Does (m : Io (State × W) (Unit {0})) (f : State → State) : Type 0 where
    returns : (s : State) (w : W) → (m (s, w)).0 ≡ ok tt
    becomes : (s : State) (w : W) → (m (s, w)).1.0 ≡ f s

  then-Does :
      {m k : Io (State × W) (Unit {0})} {f g : State → State}
      → Does m f
      → Does k g
      → Does (m >> k) (λ s. g (f s))
  then-Does {m} {k} {f} {g} a b = record {
    returns = λ s w.
        let (s', w') = (m (s, w)).1 in
        ap (λ x. x.0) (bind_ok m (λ _. k) (s, w) (a.returns s w)) ∙ b.returns s' w';
    becomes = λ s w.
        let (s', w') = (m (s, w)).1 in
        ap (λ x. x.1.0) (bind_ok m (λ _. k) (s, w) (a.returns s w))
        ∙ b.becomes s' w'
        ∙ ap g (a.becomes s w);
  }

  dispose_engine-Does :
      Closing
      → Does
          (dispose_engine close_vllm dispose aclose)
          (λ s. record s { engines = closing_of s.postgres_engine s.engines })
  dispose_engine-Does closing = record {
    returns = λ s w. elim (Option-cases s.postgres_engine) [
      | inl absent ↦ ground (arith, absent)
      | inr (e, here) ↦ ground (arith, here, (closing.engine e).returns w)
    ];
    becomes = λ s w. elim (Option-cases s.postgres_engine) [
      | inl absent ↦ ground (arith, absent)
      | inr (e, here) ↦ ground (arith, here, (closing.engine e).returns w)
    ];
  }

  aclose_redis-Does :
      Closing
      → Does
          (aclose_redis close_vllm dispose aclose)
          (λ s. record s { clients = closing_of s.redis_client s.clients })
  aclose_redis-Does closing = record {
    returns = λ s w. elim (Option-cases s.redis_client) [
      | inl absent ↦ ground (arith, absent)
      | inr (c, here) ↦ ground (arith, here, (closing.redis c).returns w)
    ];
    becomes = λ s w. elim (Option-cases s.redis_client) [
      | inl absent ↦ ground (arith, absent)
      | inr (c, here) ↦ ground (arith, here, (closing.redis c).returns w)
    ];
  }

  close_client-Does :
      Closing → (owns : Bool) → Does (close_client close_vllm dispose aclose owns) (λ s. s)
  close_client-Does closing true = record {
    returns = λ s w. ground (arith, closing.vllm.returns w);
    becomes = λ s w. ground (arith, closing.vllm.returns w);
  }
  close_client-Does closing false = record { returns = λ s w. refl; becomes = λ s w. refl }

  shutdown-Does : Closing → Does (shutdown close_vllm dispose aclose) ended
  unfolding shutdown
  shutdown-Does closing =
      let both = then-Does (dispose_engine-Does closing) (aclose_redis-Does closing) in
      record {
        returns = λ s w. both.returns (record s { ready = false }) w;
        becomes = λ s w. both.becomes (record s { ready = false }) w;
      }

  leave-Does : Closing → (owns : Bool) → Does (leave owns) ended
  unfolding leave_lifespan
  leave-Does closing owns = then-Does (close_client-Does closing owns) (shutdown-Does closing)

  leave_closes :
      Closing
      → (owns : Bool) (s : State) (w : W) → IsTracked s
      → let (r, (s', w')) = leave owns (s, w) in
        (r ≡ ok tt) × (s'.engines ≡ []) × (s'.clients ≡ []) × (s'.ready ≡ false)
  leave_closes closing owns s w h =
      let does = leave-Does closing owns in
      let end = does.becomes s w in
      (
        does.returns s w,
        ap (λ t. t.engines) end
            ∙ ap (closing_of s.postgres_engine) h.engines
            ∙ closing_of-listed s.postgres_engine,
        ap (λ t. t.clients) end
            ∙ ap (closing_of s.redis_client) h.clients
            ∙ closing_of-listed s.redis_client,
        ap (λ t. t.ready) end,
      )

  -- The application ends with every engine and every Redis client closed, whatever its handlers have
  -- asked for, where closing does not fail and the key service and the admission service are not built
  -- behind the others.
  pub demands_close :
      Closing
      → (owns : Bool) (ds : List Demand) (s : State) (w : W) → IsTracked s
      → Fit ds s
      → let (r, (s', w')) = leave owns (demands ds s, w) in
        (r ≡ ok tt) × (s'.engines ≡ []) × (s'.clients ≡ []) × (s'.ready ≡ false)
  demands_close closing owns ds s w h f =
      leave_closes closing owns (demands ds s) w (demands-IsTracked ds s f h)

  -- A Redis client that the batch service has opened is replaced in `app.state` when the admission
  -- service is built, and stays open when the application ends.
  pub admission_leaks_client :
      Closing
      → (owns : Bool) (s : State) (c : ℕ) (w : W) → IsTracked s
      → s.redis_client ≡ some c
      → s.admission_service ≡ none
      → c < s.fresh
      → let (r, (s', w')) = leave owns (demand admission s, w) in
        (r ≡ ok tt) × (s'.clients ≡ c ∷ [])
  unfolding demand
  admission_leaks_client closing owns s c w h e a lt =
      let does = leave-Does closing owns in
      let t = demand admission s in
      let older : (c == s.fresh) ≡ false = ground arith in
      (
        does.returns t w,
        ap (λ u. u.clients) (does.becomes t w) ∙ ground (arith, h.clients, e, a, older),
      )
