-- ===== src/Http/Errors.antt =====
-- `openai_error_object` of backend/core/errors.py and backend/middlewares/error_handler.py.
use ansuman_gpu_inference_se.Prelude.{
  ℕ, String, Option, none, some, List, [], ◌∷◌, ltb, ◌≡◌, refl, if◌then◌else◌,
}
use ansuman_gpu_inference_se.Text.{codes}
use ansuman_gpu_inference_se.Json.{Json, Fields, end, field, null, str, obj}
use ansuman_gpu_inference_se.Io.{AppError, Exc, app, error, cancelled}

-- `JSONResponse`
pub record JsonResponse : Type 0 where
  pub status_code : ℕ
  pub content : Fields
  pub headers : List (String × String)

abbrev pub str_or_null : Option String → Json
str_or_null none = null
str_or_null (some s) = str (codes s)

abbrev with_request_id : Option String → Fields
with_request_id none = end
with_request_id (some id) = field "request_id" (str (codes id)) end

unfoldable pub openai_error_object :
    String → String → String → Option String → Option String → Fields
openai_error_object message code error_type param request_id =
    field "error"
      (obj (
        field "message" (str (codes message)) (
          field "type" (str (codes error_type)) (
            field "param" (str_or_null param)
              (field "code" (str (codes code)) (with_request_id request_id))))))
      end

abbrev pub request_id_header : String
request_id_header = "x-request-id"

abbrev pub error_headers : String → Option String → List (String × String)
error_headers code none = ("x-error-code", code) ∷ []
error_headers code (some id) = ("x-error-code", code) ∷ (request_id_header, id) ∷ []

-- `_error_response`
unfoldable pub error_response :
    Option String → ℕ → String → String → String → Option String → JsonResponse
unfolding openai_error_object
error_response request_id status_code message code error_type param = record {
  status_code = status_code;
  content = openai_error_object message code error_type param request_id;
  headers = error_headers code request_id;
}

-- `app_error_handler`, and `_app_error_response` of backend/middlewares/auth.py.
unfoldable pub app_error_response : Option String → AppError → JsonResponse
unfolding error_response
app_error_response request_id exc =
    error_response request_id exc.status_code exc.message exc.code exc.type exc.param

-- `http_error_handler`, where `none` is a detail that is no text.
unfoldable pub http_error_response : Option String → ℕ → Option String → JsonResponse
unfolding error_response
http_error_response request_id status_code detail =
    error_response request_id status_code (elim detail [ none ↦ "HTTP error" | some d ↦ d ])
      "http_error" (if ltb status_code 500 then "invalid_request_error" else "server_error") none

-- `validation_error_handler`
unfoldable pub validation_error_response : Option String → JsonResponse
unfolding error_response
validation_error_response request_id =
    error_response request_id 400 "Invalid request payload" "bad_request" "invalid_request_error"
      none

-- `unhandled_error_handler`
unfoldable pub unhandled_error_response : Option String → JsonResponse
unfolding error_response
unhandled_error_response request_id =
    error_response request_id 500 "Internal server error" "internal_server_error" "server_error"
      none

-- The handler that `install_error_handlers` gives an exception; a cancelled request has no response.
abbrev pub handler_response : Option String → Exc → Option JsonResponse
handler_response request_id (app e) = some (app_error_response request_id e)
handler_response request_id (error s) = some (unhandled_error_response request_id)
handler_response request_id cancelled = none

-- The same error body, status and headers come of an unexpected exception whatever its text is:
-- nothing of it reaches the client.
pub handler_response_hides :
    (request_id : Option String) (s t : String)
    → handler_response request_id (error s) ≡ handler_response request_id (error t)
handler_response_hides request_id s t = refl
