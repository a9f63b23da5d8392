-- ===== src/Observability/Metrics.antt =====
-- backend/services/observability/metrics.py: what the gateway tells the Prometheus library.
use ansuman_gpu_inference_se.Prelude.{
  ℕ, ◌-◌, String, Option, none, some, List, [], ◌∷◌, ◌++◌, lookup, ◌==◌, ◌=?◌, if◌then◌else◌,
}
use ansuman_gpu_inference_se.Text.{Text, codes, eqb_text}
use ansuman_gpu_inference_se.Text.Decimal.{str_of_ℕ}
use ansuman_gpu_inference_se.Io.{app, error, cancelled, Result, ok, raised, Io}
use ansuman_gpu_inference_se.Http.RequestId.{Response}

-- One call of `inc`, `dec`, `observe` or `set`, with the labels it is made under.
pub data Sample : Type 0 where
  http_requests_total : String → Text → String → Sample
  http_request_latency_seconds : String → Text → ℕ → Sample
  http_429_total : String → Sample
  http_503_total : String → Sample
  active_streams_inc : Sample
  active_streams_dec : Sample
  stream_ttft_seconds : String → ℕ → Sample
  clickhouse_flush_failures_total : Sample
  redis_failures_total : Sample
  vllm_upstream_errors_total : String → Sample
  analytics_queue_size : ℕ → Sample

abbrev pub inc : Sample → List Sample → List Sample
inc s samples = samples ++ s ∷ []

-- `s or "unknown"`
abbrev pub or_unknown : Option String → String
or_unknown none = "unknown"
or_unknown (some s) = if s =? "" then "unknown" else s

unfoldable pub record_http_request :
    String → Text → ℕ → ℕ → Option String → List Sample → List Sample
record_http_request method path status_code elapsed_seconds error_code samples =
    let code = or_unknown error_code in
    let counted = inc (http_requests_total method path (str_of_ℕ status_code)) samples in
    let timed = inc (http_request_latency_seconds method path elapsed_seconds) counted in
    let limited = if status_code == 429 then inc (http_429_total code) timed else timed in
    if status_code == 503 then inc (http_503_total code) limited else limited

abbrev pub record_stream_started : List Sample → List Sample
record_stream_started = inc active_streams_inc

abbrev pub record_stream_finished : List Sample → List Sample
record_stream_finished = inc active_streams_dec

abbrev pub record_stream_ttft : Option String → ℕ → List Sample → List Sample
record_stream_ttft model ttft_seconds = inc (stream_ttft_seconds (or_unknown model) ttft_seconds)

abbrev pub record_clickhouse_flush_failure : List Sample → List Sample
record_clickhouse_flush_failure = inc clickhouse_flush_failures_total

abbrev pub record_redis_failure : List Sample → List Sample
record_redis_failure = inc redis_failures_total

abbrev pub record_vllm_upstream_error : String → List Sample → List Sample
record_vllm_upstream_error error_code = inc (vllm_upstream_errors_total error_code)

-- `update_runtime_gauges`, of the size of the collector's queue, if there is one.
abbrev pub update_runtime_gauges : Option ℕ → List Sample → List Sample
update_runtime_gauges none samples = samples
update_runtime_gauges (some n) samples = inc (analytics_queue_size n) samples

-- `_path_template`: the path of the route that was found, or that of the request.
abbrev pub path_template : Option Text → Text → Text
path_template none path = path
path_template (some route) path = route

-- `status_code` and `error_code` when the `finally` runs. An exception that is no `AppError` has
-- neither attribute; a cancellation passes by the `except Exception`.
abbrev pub observed : {B : Type 0} → Result (Response B) → ℕ × Option String
observed (ok response) = (response.status_code, lookup "x-error-code" response.headers)
observed (raised (app e)) = (e.status_code, some e.code)
observed (raised (error s)) = (500, none)
observed (raised cancelled) = (500, none)

-- The samples stand in front of the world; `route` is the path of the route that the router has put
-- into the scope of the request, and `perf_counter` reads the clock.
module _ {W B : Type 0} (perf_counter : W → ℕ) (route : W → Option Text)
    (call_next : Io W (Response B)) where
  -- The `finally` of the middleware.
  abbrev pub measured :
      String
      → Text
      → ℕ
      → List Sample
      → Result (Response B) × W
      → Result (Response B) × (List Sample × W)
  measured method path started_at samples (r, w) =
      let (status_code, error_code) = observed r in
      (
        r,
        (
          record_http_request method (path_template (route w) path) status_code
              (perf_counter w - started_at) error_code samples,
          w,
        ),
      )

  abbrev unmeasured :
      List Sample → Result (Response B) × W → Result (Response B) × (List Sample × W)
  unmeasured samples (r, w) = (r, (samples, w))

  -- `MetricsMiddleware.dispatch`
  unfoldable pub dispatch : String → Text → Io (List Sample × W) (Response B)
  unfolding record_http_request
  dispatch method path (samples, w) =
      if eqb_text path (codes "/metrics")
      then unmeasured samples (call_next w)
      else measured method path (perf_counter w) samples (call_next w)
