-- ===== src/Http/Stack/Examples.antt =====
-- A request that fails in the application, and the theorems at it.
use ansuman_gpu_inference_se.Prelude.{ℕ, suc, String, ◌≡◌, refl, Option, none, some, [], ◌∷◌, ◌++◌}
use ansuman_gpu_inference_se.Text.{Text, codes}
use ansuman_gpu_inference_se.Text.Decimal.{str_of_ℕ}
use ansuman_gpu_inference_se.Json.{Fields}
use ansuman_gpu_inference_se.Io.{error, ok, raised, Io}
use ansuman_gpu_inference_se.Auth.Keys.{AuthContext}
use ansuman_gpu_inference_se.Http.Authenticate.{is_protected_path, extract_bearer_token}
use ansuman_gpu_inference_se.Http.RequestId.{Response, request_id_of}
use ansuman_gpu_inference_se.Http.Stack.{Request, handle}
use ansuman_gpu_inference_se.Http.Stack.Counted.{
  counted, status_of, Carries, handle_counts, handle_missing,
}
use ansuman_gpu_inference_se.Observability.Metrics.{path_template}

abbrev caller : AuthContext
caller = record { api_key_id = "k"; user_id = "u"; project_id = "p"; allowed_models = none }

-- The world counts the requests that the application has seen.
abbrev fails : String → Option AuthContext → Io (Option String × ℕ) (Response Fields)
fails id context (c, w) = (raised (error "broken"), (c, suc w))

abbrev accept : Text → Io (Option String × ℕ) AuthContext
accept raw_key v = (ok caller, v)

abbrev hex : ℕ → String
hex w = "0a"

abbrev clock : ℕ → ℕ
clock w = w

abbrev no_route : ℕ → Option Text
no_route w = none

abbrev request : Request
request = record {
  method = "POST";
  path = codes "/v1/batch/jobs";
  request_id = some "mine";
  authorization = none;
}

handle_counts_example :
    let (r, (samples', (context', w'))) =
      handle hex clock no_route accept fails request ([], (none, 0)) in
    (counted samples'
      ≡ counted []
        ++ ("POST", path_template (no_route w') (codes "/v1/batch/jobs"), str_of_ℕ (status_of r))
          ∷ [])
    × Carries (request_id_of hex (some "mine") 0) r
    × (context' ≡ none)
handle_counts_example = handle_counts hex clock no_route accept fails request [] none 0 refl

handle_missing_example :
    let (r, (samples', (context', w'))) =
      handle hex clock no_route accept fails request ([], (none, 0)) in
    (status_of r ≡ 401) × (w' ≡ 0)
unfolding is_protected_path extract_bearer_token
handle_missing_example =
    handle_missing hex clock no_route accept fails request [] none 0 refl refl refl
