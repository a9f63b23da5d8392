-- ===== src/Observability/Sentry/Once.antt =====
-- How often an exception of one request reaches Sentry, and what a failing Sentry does to the caller
-- (backend/services/observability/sentry.py).
use ansuman_gpu_inference_se.Prelude.{
  ℕ, ◌+◌, String, Bool, true, false, not, ◌||◌, Option, none, some, List, [], ◌∷◌, ◌++◌, ◌≡◌, refl,
  sym, ap, ◌∙◌, arith, if◌then◌else◌,
}
use ansuman_gpu_inference_se.Json.{Json}
use ansuman_gpu_inference_se.Io.{Exc, Result, ok, raised, Io, pure, ◌>>=◌, ◌>>◌}
use ansuman_gpu_inference_se.Io.Keeps.{Keeps, pure-Keeps, then-Keeps, try_except-Keeps, Returns}
use ansuman_gpu_inference_se.Auth.Keys.{AuthContext}
use ansuman_gpu_inference_se.Observability.{should_skip_exception}
use ansuman_gpu_inference_se.Observability.Sentry.Counts.{
  accepted, Counts, pure-Counts, then-Counts, finally-Counts, caught-Counts,
}
use ansuman_gpu_inference_se.Observability.Sentry.{
  Sdk, Request, Tags, request_tags, caller_tags, set_caller, set_if, set_tags, report, report_to,
  bind_tags, bind_to, answered, capture_exception, bind_request_context, capture_request_exception,
  request_report_tags,
}

-- `sent` counts the reports that were accepted; nothing but `capture_exception` sends one, and leaving
-- a scope does not fail.
pub record SdkLaws {W Float : Type 0} (sdk : Sdk W Float) (sent : W → ℕ) : Type 0 where
  pub sent-capture_exception :
      (e : Exc) (w : W)
      → sent (sdk.capture_exception e w).1 ≡ sent w + accepted (sdk.capture_exception e w).0
  pub push_scope-Keeps : Keeps sent sdk.push_scope
  pub pop_scope-Keeps : Keeps sent sdk.pop_scope
  pub pop_scope-Returns : Returns sdk.pop_scope
  pub configure_scope-Keeps : Keeps sent sdk.configure_scope
  pub set_tag-Keeps : (k v : String) → Keeps sent (sdk.set_tag k v)
  pub set_context-Keeps : (k : String) (v : Json) → Keeps sent (sdk.set_context k v)
  pub set_user-Keeps : (id : String) → Keeps sent (sdk.set_user id)

-- The reports that may still be sent of a request.
abbrev pub remaining : Request → ℕ
remaining request = if request.sentry_exception_captured then 0 else 1

remaining-fresh :
    (request : Request) → request.sentry_exception_captured ≡ false → remaining request ≡ 1
remaining-fresh request h = ap (λ b. if b then 0 else 1) h

-- The request behind a call, which a raise leaves as it was.
abbrev pub next : Request → Result (Option String × Request) → Request
next request (ok (id, request')) = request'
next request (raised e) = request

module _ {W Float : Type 0} (sdk : Option (Sdk W Float)) (scrubbed : Json → Json) where
  -- The calls of `capture_request_exception` that the handlers of one request make, in order, each with
  -- its exception and the model and the stream that the handler knows.
  unfoldable pub capture_all :
      Bool → List (Exc × (Option String × Option Bool)) → Request → W → Request × W
  capture_all enabled [] request w = (request, w)
  capture_all enabled ((exc, (model, stream)) ∷ captures) request w =
      let (r, w') = capture_request_exception sdk scrubbed enabled request exc model stream w in
      capture_all enabled captures (next request r) w'

module _ {W Float : Type 0} (sdk : Sdk W Float) (scrubbed : Json → Json) {sent : W → ℕ}
    (laws : SdkLaws sdk sent) where
  set_if-Keeps : (key : String) (value : Option String) → Keeps sent (set_if sdk key value)
  set_if-Keeps key none = pure-Keeps sent tt
  set_if-Keeps key (some value) = laws.set_tag-Keeps key value

  set_tags-Keeps : (tags : Tags) → Keeps sent (set_tags sdk tags)
  unfolding set_tags
  set_tags-Keeps [] = pure-Keeps sent tt
  set_tags-Keeps ((key, value) ∷ tags) =
      then-Keeps sent (set_if-Keeps key value) (set_tags-Keeps tags)

  report-Counts : (tags : Tags) (exc : Exc) → Counts sent (report sdk tags none exc)
  unfolding report
  report-Counts tags exc = then-Counts sent laws.push_scope-Keeps (
      finally-Counts sent
        (then-Counts sent (set_tags-Keeps tags) (
          then-Counts sent (pure-Keeps sent tt)
            (record { counts = laws.sent-capture_exception exc })))
        laws.pop_scope-Keeps laws.pop_scope-Returns)

  capture-Counts :
      (enabled : Bool) (exc : Exc) (tags : Tags)
      → Counts sent (capture_exception (some sdk) scrubbed enabled exc tags none)
  unfolding capture_exception
  capture-Counts enabled exc tags = choose (should_skip_exception exc || not enabled)
    where
      choose :
          (b : Bool)
          → Counts sent
              (if b then pure none else report_to (some sdk) scrubbed (some sdk) tags none exc)
      choose true = pure-Counts sent
      choose false = caught-Counts sent (report-Counts tags exc)

  set_caller-Keeps : (caller : Option AuthContext) → Keeps sent (set_caller sdk caller)
  set_caller-Keeps none = pure-Keeps sent tt
  set_caller-Keeps (some c) = laws.set_user-Keeps c.user_id

  bind_to-Keeps :
      (tags : Tags) (caller : Option AuthContext)
      → Keeps sent (bind_to (some sdk) scrubbed (some sdk) tags caller)
  unfolding bind_tags
  bind_to-Keeps tags caller =
      try_except-Keeps sent
        (then-Keeps sent laws.configure_scope-Keeps
          (then-Keeps sent (set_tags-Keeps tags) (set_caller-Keeps caller)))
        (λ _. pure-Keeps sent tt)

  bind_request_context-Keeps :
      (enabled : Bool) (request : Request) (model : Option String) (stream : Option Bool)
      → Keeps sent (bind_request_context (some sdk) scrubbed enabled request model stream)
  unfolding bind_request_context
  bind_request_context-Keeps true request model stream =
      bind_to-Keeps (request_tags request model stream ++ caller_tags request.auth_context)
        request.auth_context
  bind_request_context-Keeps false request model stream = pure-Keeps sent tt

  answer_at :
      (request : Request)
      → request.sentry_exception_captured ≡ false
      → (r : Result (Option String)) (v : W) (n : ℕ) → sent v ≡ n + accepted r
      → let (a, u) = ((λ (w : W). (r, w)) >>= answered (some sdk) scrubbed request) v in
        sent u + remaining (next request a) ≡ n + 1
  answer_at request h (ok none) v n e = omega (arith, e, remaining-fresh request h)
  answer_at request h (ok (some id)) v n e = omega (arith, e)
  answer_at request h (raised x) v n e = omega (arith, e, remaining-fresh request h)

  after_binding :
      (request : Request) (capture : Io W (Option String))
      → request.sentry_exception_captured ≡ false
      → Counts sent capture
      → (b : Result (Unit {0})) (v : W) (n : ℕ) → sent v ≡ n
      → let (a, u) =
          ((λ (w : W). (b, w)) >> (capture >>= answered (some sdk) scrubbed request)) v in
        sent u + remaining (next request a) ≡ n + 1
  after_binding request capture h c (ok _) v n e =
      answer_at request h (capture v).0 (capture v).1 (sent v) (c.counts v) ∙ ap (λ m. m + 1) e
  after_binding request capture h c (raised x) v n e = omega (arith, e, remaining-fresh request h)

  capture-remaining :
      (enabled : Bool) (request : Request) (exc : Exc) (model : Option String)
      (stream : Option Bool) (w : W)
      → let (r, w') =
          capture_request_exception (some sdk) scrubbed enabled request exc model stream w in
        sent w' + remaining (next request r) ≡ sent w + remaining request
  unfolding capture_request_exception
  capture-remaining enabled request exc model stream w =
      choose request.sentry_exception_captured refl
    where
      tags : Tags
      tags = request_report_tags (some sdk) scrubbed request exc model stream

      bind : Io W (Unit {0})
      bind = bind_request_context (some sdk) scrubbed enabled request model stream

      capture : Io W (Option String)
      capture = capture_exception (some sdk) scrubbed enabled exc tags none

      choose :
          (b : Bool)
          → request.sentry_exception_captured ≡ b
          → let (r, w') =
              (if b
                  then pure (none, request)
                  else (bind >> (capture >>= answered (some sdk) scrubbed request)))
                w in
            sent w' + remaining (next request r) ≡ sent w + remaining request
      choose true h = refl
      choose false h =
          after_binding request capture h (capture-Counts enabled exc tags) (bind w).0 (bind w).1
            (sent w) ((bind_request_context-Keeps enabled request model stream).keeps w)
          ∙ ap (λ n. sent w + n) (sym (remaining-fresh request h))

  -- However often the handlers of one request capture what they meet, whatever model and stream each of
  -- them names, at most one report of it reaches Sentry: one exactly where the request ends up marked,
  -- and none where it was marked before.
  pub capture_all_once :
      (enabled : Bool) (request : Request) (captures : List (Exc × (Option String × Option Bool)))
      (w : W)
      → let (request', w') = capture_all (some sdk) scrubbed enabled captures request w in
        sent w' + remaining request' ≡ sent w + remaining request
  unfolding capture_all
  capture_all_once enabled request [] w = refl
  capture_all_once enabled request ((exc, (model, stream)) ∷ captures) w =
      let (r, w') =
        capture_request_exception (some sdk) scrubbed enabled request exc model stream w in
      capture_all_once enabled (next request r) captures w'
      ∙ capture-remaining enabled request exc model stream w
