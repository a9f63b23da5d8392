-- ===== src/Http/Examples.antt =====
-- Requests with and without a bearer token, and the theorems at them.
use ansuman_gpu_inference_se.Prelude.{ℕ, suc, ◌≡◌, refl, Option, none, some, [], ◌++◌}
use ansuman_gpu_inference_se.Text.{Text, codes, strip, is_space, lstrip, rstrip, push}
use ansuman_gpu_inference_se.Io.{ok, Io}
use ansuman_gpu_inference_se.Auth.Keys.{AuthContext}
use ansuman_gpu_inference_se.Http.Authenticate.{
  authorization_prefix, extract_bearer_token, non_empty, is_protected_path, dispatch,
  dispatch_guards, extract_bearer_token_lem,
}

abbrev caller : AuthContext
caller = record { api_key_id = "k"; user_id = "u"; project_id = "p"; allowed_models = none }

-- Every token authenticates, and the world counts the calls.
abbrev accept : Text → Io ℕ AuthContext
accept raw_key w = (ok caller, suc w)

abbrev application : Option AuthContext → Io ℕ ℕ
application context w = (ok 200, suc w)

dispatch_guards_example :
    (raw_key : Text) × (context : AuthContext) × (extract_bearer_token
        (some (codes "Bearer an_secret"))
      ≡ some raw_key)
    × ((accept raw_key 0).0 ≡ ok context)
    × (application (some context) (accept raw_key 0).1 ≡ (ok 200, 2))
unfolding dispatch is_protected_path extract_bearer_token strip lstrip rstrip push is_space
dispatch_guards_example =
    dispatch_guards accept application (some "r") (codes "/v1/batch/jobs")
      (some (codes "Bearer an_secret")) 0 {a = 200} refl refl

extract_bearer_token_lem_example :
    extract_bearer_token (some (authorization_prefix ++ (codes " " ++ (codes "an_secret" ++ []))))
    ≡ non_empty (strip (codes "an_secret"))
unfolding is_space
extract_bearer_token_lem_example =
    extract_bearer_token_lem (codes " ") (codes "an_secret") [] (refl, tt) tt
