-- ===== src/Http/Stack/Counted.antt =====
-- What the middlewares of backend/main.py make of every request.
use ansuman_gpu_inference_se.Prelude.{
  ℕ, ◌-◌, String, Bool, true, false, Option, none, some, List, [], ◌∷◌, ◌++◌, ◌≡◌, refl, ap, ◌∙◌,
  lookup, lookup-insert, ◌==◌, if◌then◌else◌,
}
use mathlib.Core.List.{append-nil}
use ansuman_gpu_inference_se.Text.{Text, codes, eqb_text}
use ansuman_gpu_inference_se.Text.Decimal.{str_of_ℕ}
use ansuman_gpu_inference_se.Json.{Fields}
use ansuman_gpu_inference_se.Io.{Result, ok, raised, Io}
use ansuman_gpu_inference_se.Auth.Keys.{AuthContext}
use ansuman_gpu_inference_se.Http.Errors.{app_error_response, request_id_header}
use ansuman_gpu_inference_se.Http.Authenticate.{
  Reply, passed_on, refused, extract_bearer_token, is_protected_path,
}
use ansuman_gpu_inference_se.Http.Authenticate
use ansuman_gpu_inference_se.Http.RequestId.{Response, leave, request_id_of}
use ansuman_gpu_inference_se.Http.RequestId
use ansuman_gpu_inference_se.Observability.Metrics.{
  Sample, http_requests_total, http_request_latency_seconds, http_429_total, http_503_total, inc,
  or_unknown, observed, path_template, record_http_request,
}
use ansuman_gpu_inference_se.Observability.Metrics
use ansuman_gpu_inference_se.Http.Stack.{Request, authenticated, handle}

-- What HTTP_REQUESTS_TOTAL has counted: method, path and status, in order.
abbrev pub counted : List Sample → List (String × Text × String)
counted [] = []
counted (http_requests_total method path status ∷ samples) =
    (method, path, status) ∷ counted samples
counted (s ∷ samples) = counted samples

counted-append : (l m : List Sample) → counted (l ++ m) ≡ counted l ++ counted m
counted-append [] m = refl
counted-append (http_requests_total a b c ∷ l) m = ap (λ k. (a, b, c) ∷ k) (counted-append l m)
counted-append (_ ∷ l) m = counted-append l m

-- A sample of another metric does not count, whether it is taken or not.
counted-inc_if :
    (b : Bool) (sample : Sample) (l : List Sample)
    → counted (sample ∷ []) ≡ []
    → counted (if b then inc sample l else l) ≡ counted l
counted-inc_if false sample l h = refl
counted-inc_if true sample l h =
    counted-append l (sample ∷ []) ∙ ap (λ k. counted l ++ k) h ∙ append-nil (counted l)

counted-record_http_request :
    (method : String) (path : Text) (status elapsed : ℕ) (code : Option String)
    (samples : List Sample)
    → counted (record_http_request method path status elapsed code samples)
      ≡ counted samples ++ (method, path, str_of_ℕ status) ∷ []
unfolding record_http_request
counted-record_http_request method path status elapsed code samples =
    let label = or_unknown code in
    let asked = inc (http_requests_total method path (str_of_ℕ status)) samples in
    let timed = inc (http_request_latency_seconds method path elapsed) asked in
    let limited = if status == 429 then inc (http_429_total label) timed else timed in
    counted-inc_if (status == 503) (http_503_total label) limited refl
    ∙ counted-inc_if (status == 429) (http_429_total label) timed refl
    ∙ counted-inc_if true (http_request_latency_seconds method path elapsed) asked refl
    ∙ counted-append samples (http_requests_total method path (str_of_ℕ status) ∷ [])

abbrev pub status_of : {B : Type 0} → Result (Response B) → ℕ
status_of r = (observed r).0

-- A response carries the id of its request.
abbrev pub Carries : String → Result (Response Fields) → Type 0
Carries id (ok response) = lookup request_id_header response.headers ≡ some id
Carries id (raised e) = Unit {0}

leave_lem :
    {W : Type 0} (id : String) (old : Option String) (r : Result (Response Fields))
    (v : Option String × W)
    → let (r', (context, w)) = leave id old (r, v) in Carries id r' × (context ≡ old)
leave_lem id old (ok response) v =
    (lookup-insert request_id_header request_id_header id response.headers, refl)
leave_lem id old (raised e) v = (tt, refl)

module _ {W : Type 0} (uuid4_hex : W → String) (perf_counter : W → ℕ) (route : W → Option Text)
    (authenticate : Text → Io (Option String × W) AuthContext)
    (routed : String → Option AuthContext → Io (Option String × W) (Response Fields)) where
  -- A request to any path but /metrics is counted exactly once, however it ends: under its method, the
  -- path of its route, and the status of the response, or of the exception that is raised. A response
  -- carries the id of the request, which is the one that the client sent, if it sent one, and the
  -- context of the log lines is what it was.
  pub handle_counts :
      (request : Request) (samples : List Sample) (context : Option String) (w : W)
      → eqb_text request.path (codes "/metrics") ≡ false
      → let (r, (samples', (context', w'))) =
          handle uuid4_hex perf_counter route authenticate routed request (samples, (context, w)) in
        (counted samples'
          ≡ counted samples
            ++ (request.method, path_template (route w') request.path, str_of_ℕ (status_of r)) ∷ [])
        × Carries (request_id_of uuid4_hex request.request_id w) r
        × (context' ≡ context)
  unfolding handle Metrics.dispatch RequestId.dispatch
  handle_counts request samples context w other =
      let id = request_id_of uuid4_hex request.request_id w in
      let x =
        authenticated uuid4_hex perf_counter route authenticate routed request id (some id, w) in
      let (r, (_, w')) = leave id context x in
      rw other (
        counted-record_http_request request.method (path_template (route w') request.path)
            (status_of r) (perf_counter w' - perf_counter w) (observed r).1 samples,
        (leave_lem id context x.0 x.1).0,
        (leave_lem id context x.0 x.1).1,
      )

  -- A request to a protected path that brings no bearer token is refused with 401 in front of the
  -- application: neither it nor the key service is called, and the refusal is counted once.
  pub handle_missing :
      (request : Request) (samples : List Sample) (context : Option String) (w : W)
      → is_protected_path request.path ≡ true
      → extract_bearer_token request.authorization ≡ none
      → eqb_text request.path (codes "/metrics") ≡ false
      → let (r, (samples', (context', w'))) =
          handle uuid4_hex perf_counter route authenticate routed request (samples, (context, w)) in
        (status_of r ≡ 401) × (w' ≡ w)
  unfolding handle Metrics.dispatch RequestId.dispatch app_error_response
  handle_missing request samples context w guarded absent other =
      let id = request_id_of uuid4_hex request.request_id w in
      let refusal =
        Authenticate.dispatch_missing authenticate (routed id) (some id) request.path
          request.authorization (some id, w) guarded absent in
      rw other (rw refusal (refl, refl))
