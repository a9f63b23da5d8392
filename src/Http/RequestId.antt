-- ===== src/Http/RequestId.antt =====
-- backend/middlewares/request_id.py, backend/utils/ids.py and backend/core/request_context.py: the id
-- of a request in its state, in the context of its log lines and in the headers of its response.
use Prim.Native.String.{◌++◌}
use ansuman_gpu_inference_se.Prelude.{
  ℕ, String, Option, none, some, List, insert, ◌=?◌, if◌then◌else◌,
}
use ansuman_gpu_inference_se.Io.{Result, ok, raised, Io}
use ansuman_gpu_inference_se.Http.Errors.{request_id_header}

-- A response as the middlewares see it.
pub record Response (B : Type 0) : Type 0 where
  pub status_code : ℕ
  pub headers : List (String × String)
  pub body : B

-- `request.headers.get(REQUEST_ID_HEADER) or generate_request_id()`
abbrev pub or_generated : Option String → String → String
or_generated none generated = generated
or_generated (some id) generated = if id =? "" then generated else id

-- `response.headers[REQUEST_ID_HEADER] = request_id`
abbrev pub with_id_header : {B : Type 0} → String → Response B → Response B
with_id_header id response = record response {
  headers = insert request_id_header id response.headers;
}

module _ {W B : Type 0} where
  -- The `finally` that resets the context, and the header where there is a response.
  abbrev pub leave :
      String
      → Option String
      → Result (Response B) × (Option String × W)
      → Result (Response B) × (Option String × W)
  leave id old (ok response, (_, w)) = (ok (with_id_header id response), (old, w))
  leave id old (raised e, (_, w)) = (raised e, (old, w))

-- `generate_request_id`, of the id that `uuid4` draws.
abbrev pub generate_request_id : {W : Type 0} → (W → String) → W → String
generate_request_id uuid4_hex w = "req_" ++ uuid4_hex w

abbrev pub request_id_of : {W : Type 0} → (W → String) → Option String → W → String
request_id_of uuid4_hex header w = or_generated header (generate_request_id uuid4_hex w)

-- `request_id_context` stands in front of the world; `uuid4_hex` draws the id.
module _ {W B : Type 0} (uuid4_hex : W → String)
    (call_next : String → Io (Option String × W) (Response B)) where
  -- `RequestIdMiddleware.dispatch`
  unfoldable pub dispatch : Option String → Io (Option String × W) (Response B)
  dispatch header (old, w) =
      let id = request_id_of uuid4_hex header w in leave id old (call_next id (some id, w))
