-- ===== src/Vllm/Client.antt =====
-- backend/services/vllm/client.py and errors.py: what an answer of the upstream's HTTP API comes to.
use ansuman_gpu_inference_se.Prelude.{
  ℕ, String, ◌≡◌, refl, Bool, true, false, Option, none, some, [], ◌∷◌, leb, arith, if◌then◌else◌,
  ◌<◌, inl, inr, ◌↔◌, Bool-cases, ap,
}
use Prim.Native.String.{◌++◌}
use ansuman_gpu_inference_se.Text.{Text}
use ansuman_gpu_inference_se.Text.Decimal.{str_of_ℕ}
use ansuman_gpu_inference_se.Json.{Json, Fields, bool, obj, put}
use ansuman_gpu_inference_se.Io.{AppError, Exc, app, Result, ok, raised, Io, ◌>>=◌, lift}
use ansuman_gpu_inference_se.Vllm.Stream.{Stream, ends, fails, line, waits}

abbrev pub timeout_error : AppError
timeout_error = record {
  message = "vLLM upstream timed out";
  code = "upstream_timeout";
  status_code = 504;
  type = "server_error";
  param = none;
}

abbrev pub upstream_status_error : ℕ → AppError
upstream_status_error status_code = record {
  message = "vLLM upstream returned HTTP " ++ str_of_ℕ status_code;
  code = "upstream_error";
  status_code = 502;
  type = "server_error";
  param = none;
}

abbrev pub invalid_response_error : AppError
invalid_response_error = record {
  message = "vLLM upstream returned an invalid response";
  code = "upstream_invalid_response";
  status_code = 502;
  type = "server_error";
  param = none;
}

abbrev pub request_failed_error : AppError
request_failed_error = record {
  message = "vLLM upstream request failed";
  code = "upstream_error";
  status_code = 502;
  type = "server_error";
  param = none;
}

-- What an httpx call comes to. In `response`, the body that `json()` gives, where it gives one.
pub data Answer : Type 0 where
  times_out : Answer
  http_error : Answer
  response : ℕ → Option Json → Answer

unfoldable pub raise_for_upstream_status : ℕ → Result (Unit {0})
raise_for_upstream_status status_code =
    if leb 400 status_code then raised (app (upstream_status_error status_code)) else ok tt

abbrev if_status_ok : {A : Type 0} → ℕ → Result A → Result A
if_status_ok status_code r = elim (raise_for_upstream_status status_code) [
  | ok _ ↦ r
  | raised e ↦ raised e
]

-- `response.json()`, and the test that it is an object
abbrev parsed_object : Option Json → Result Fields
parsed_object (some (obj fs)) = ok fs
parsed_object _ = raised (app invalid_response_error)

-- `create_chat_completion`, and `list_models` after its own request: both meet the answer alike.
unfoldable pub read_answer : Answer → Result Fields
unfolding raise_for_upstream_status
read_answer times_out = raised (app timeout_error)
read_answer http_error = raised (app request_failed_error)
read_answer (response status_code body) = if_status_ok status_code (parsed_object body)

-- `httpx_post` and `httpx_get` are the HTTP client's.
module _ {W : Type 0} (httpx_post : Fields → Io W Answer) (httpx_get : String → Io W Answer) where
  unfoldable pub create_chat_completion : Fields → Io W Fields
  create_chat_completion payload = do answer ← httpx_post payload; lift (read_answer answer)

  unfoldable pub list_models : Io W Fields
  list_models = do answer ← httpx_get "/v1/models"; lift (read_answer answer)

-- What `httpx.stream` does, line by line: the lines of the body, and how it breaks off.
pub data Body : Type 0 where
  body_ends : Body
  body_line : Text → Body → Body
  body_waits : Body → Body
  body_times_out : Body
  body_http_error : Body

pub data StreamAnswer : Type 0 where
  no_answer_in_time : StreamAnswer
  no_answer : StreamAnswer
  answers : ℕ → Body → StreamAnswer

-- `async for line in response.aiter_lines()`
unfoldable pub body_lines : Body → Stream
body_lines body_ends = ends
body_lines body_times_out = fails (app timeout_error)
body_lines body_http_error = fails (app request_failed_error)
body_lines (body_waits b) = waits (body_lines b)
body_lines (body_line [] b) = body_lines b
body_lines (body_line (c ∷ l) b) = line (c ∷ l) (body_lines b)

-- `stream_chat_completion`, once the request has been sent
unfoldable pub stream_answer : StreamAnswer → Stream
unfolding body_lines
stream_answer no_answer_in_time = fails (app timeout_error)
stream_answer no_answer = fails (app request_failed_error)
stream_answer (answers status_code body) =
    if leb 400 status_code then fails (app (upstream_status_error status_code)) else body_lines body

-- `{**payload, "stream": True}`
unfoldable pub stream_payload : Fields → Fields
stream_payload payload = put "stream" (bool true) payload

parsed_object-ok :
    (body : Option Json) (fs : Fields) → parsed_object body ≡ ok fs → body ≡ some (obj fs)
parsed_object-ok none fs h = ground (arith, h)
parsed_object-ok (some (obj gs)) fs h = ground (arith, h)
parsed_object-ok (some v) fs h = ground (arith, h)

parsed_object-raised :
    (body : Option Json) (e : Exc) → parsed_object body ≡ raised e → e ≡ app invalid_response_error
parsed_object-raised none e h = ground (arith, h)
parsed_object-raised (some (obj gs)) e h = ground (arith, h)
parsed_object-raised (some v) e h = ground (arith, h)

-- The JSON object is returned as it stands from an answer below 400 that has one, and from no other
-- answer.
pub read_answer_iff :
    (answer : Answer) (fs : Fields)
    → (read_answer answer ≡ ok fs)
      ↔ ((status : ℕ) × (status < 400) × (answer ≡ response status (some (obj fs))))
unfolding read_answer raise_for_upstream_status
read_answer_iff times_out fs = ground arith
read_answer_iff http_error fs = ground arith
read_answer_iff (response status body) fs = (
  (λ h. (
    status,
    ground (arith, h),
    ap (response status) (parsed_object-ok body fs (ground (arith, h))),
  )),
  (λ (t, low, e). ground (arith, low, e)),
)

abbrev pub is_time_out : Answer → Bool
is_time_out times_out = true
is_time_out _ = false

-- Every other answer is reported as an error of the server's, a time-out as 504 and the rest as 502:
-- no status of the upstream is passed on, not even one that blames the request.
pub read_answer_error :
    (answer : Answer) (e : Exc)
    → read_answer answer ≡ raised e
    → (a : AppError) × (e ≡ app a)
      × (a.type ≡ "server_error")
      × (a.status_code ≡ (if is_time_out answer then 504 else 502))
unfolding read_answer raise_for_upstream_status
read_answer_error times_out e h = (timeout_error, ground (arith, h), refl, refl)
read_answer_error http_error e h = (request_failed_error, ground (arith, h), refl, refl)
read_answer_error (response status body) e h = elim (Bool-cases (leb 400 status)) [
  | inl high ↦ (upstream_status_error status, ground (arith, h, high), refl, refl)
  | inr low ↦
      (invalid_response_error, parsed_object-raised body e (ground (arith, h, low)), refl, refl)
]
