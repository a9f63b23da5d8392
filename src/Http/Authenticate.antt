-- ===== src/Http/Authenticate.antt =====
-- backend/middlewares/auth.py: the paths that need an API key, and what is taken as one.
use ansuman_gpu_inference_se.Prelude.{
  String, Bool, true, false, ◌||◌, Option, none, some, List, [], ◌∷◌, ◌++◌, ◌≡◌, refl, ap, arith,
  inl, inr, Option-cases, if◌then◌else◌,
}
use ansuman_gpu_inference_se.Text.{Text, codes, eqb_text, starts_with, remove_prefix, strip}
use ansuman_gpu_inference_se.Text.Blanks.{IsBlank, strip-blank}
use ansuman_gpu_inference_se.Io.{app, error, cancelled, Result, ok, raised, Io, Result-cases}
use ansuman_gpu_inference_se.Auth.Keys.{AuthContext, missing_api_key_error}
use ansuman_gpu_inference_se.Http.Errors.{JsonResponse, app_error_response}

abbrev pub protected_paths : List Text
protected_paths =
    codes "/v1/chat/completions"
    ∷ codes "/v1/completions"
    ∷ codes "/v1/embeddings"
    ∷ codes "/v1/batch"
    ∷ []

-- `path == protected or path.startswith(f"{protected}/")`, for any of the paths
abbrev pub under_any : List Text → Text → Bool
under_any [] path = false
under_any (p ∷ ps) path =
    (eqb_text path p || starts_with path (p ++ codes "/")) || under_any ps path

-- `_is_protected_path`
unfoldable pub is_protected_path : Text → Bool
is_protected_path path = under_any protected_paths path

abbrev pub authorization_prefix : Text
authorization_prefix = codes "Bearer "

-- `raw_key or None`
abbrev pub non_empty : Text → Option Text
non_empty [] = none
non_empty (c ∷ s) = some (c ∷ s)

-- `_extract_bearer_token`, of the header `authorization`.
unfoldable pub extract_bearer_token : Option Text → Option Text
extract_bearer_token none = none
extract_bearer_token (some authorization) =
    if starts_with authorization authorization_prefix
    then non_empty (strip (remove_prefix authorization authorization_prefix))
    else none

-- What the middleware answers with: the response of the application, or its own.
pub data Reply (R : Type 0) : Type 0 where
  passed_on : R → Reply R
  refused : JsonResponse → Reply R

-- `authenticate` is that of the service in use, and `call_next` the rest of the application, which
-- sees the context that the middleware has set.
module _ {W R : Type 0} (authenticate : Text → Io W AuthContext)
    (call_next : Option AuthContext → Io W R) where
  abbrev passed : Result R × W → Result (Reply R) × W
  passed (ok a, w) = (ok (passed_on a), w)
  passed (raised e, w) = (raised e, w)

  abbrev pub pass : Option AuthContext → Io W (Reply R)
  pass context w = passed (call_next context w)

  -- The `except AppError`, and what follows the `try`.
  abbrev pub after_authentication : Option String → Result AuthContext → Io W (Reply R)
  after_authentication request_id (ok context) w = pass (some context) w
  after_authentication request_id (raised (app e)) w =
      (ok (refused (app_error_response request_id e)), w)
  after_authentication request_id (raised (error s)) w = (raised (error s), w)
  after_authentication request_id (raised cancelled) w = (raised cancelled, w)

  abbrev pub credentials : Option Text → Io W AuthContext
  credentials none w = (raised (app missing_api_key_error), w)
  credentials (some raw_key) w = authenticate raw_key w

  -- `ApiKeyAuthMiddleware.dispatch`
  unfoldable pub dispatch : Option String → Text → Option Text → Io W (Reply R)
  unfolding is_protected_path extract_bearer_token
  dispatch request_id path authorization w =
      let (r, w') = credentials (extract_bearer_token authorization) w in
      if is_protected_path path then after_authentication request_id r w' else pass none w

  -- The application answers a request to a protected path only behind a bearer token that
  -- authenticates, and it sees the context of that key.
  pub dispatch_guards :
      (request_id : Option String) (path : Text) (authorization : Option Text) (w : W) {a : R}
      → is_protected_path path ≡ true
      → let (r, w') = dispatch request_id path authorization w in
        r ≡ ok (passed_on a)
        → (raw_key : Text) × (context : AuthContext) × (extract_bearer_token authorization
            ≡ some raw_key)
          × ((authenticate raw_key w).0 ≡ ok context)
          × (call_next (some context) (authenticate raw_key w).1 ≡ (ok a, w'))
  unfolding dispatch
  dispatch_guards request_id path authorization w {a} p h =
      elim (Option-cases (extract_bearer_token authorization)) [
        | inl absent ↦ absurd (ground (arith, p, h, absent))
        | inr (raw_key, present) ↦ elim (Result-cases (authenticate raw_key w).0) [
          | inl (context, known) ↦
              (raw_key, context, present, known, ground (arith, p, h, present, known))
          | inr (e, unknown) ↦ absurd (ground (arith, p, h, present, unknown))
        ]
      ]

  -- Without a bearer token a request to a protected path is refused with 401, and neither the key
  -- service nor the application is called.
  pub dispatch_missing :
      (request_id : Option String) (path : Text) (authorization : Option Text) (w : W)
      → is_protected_path path ≡ true
      → extract_bearer_token authorization ≡ none
      → dispatch request_id path authorization w
        ≡ (ok (refused (app_error_response request_id missing_api_key_error)), w)
  unfolding dispatch
  dispatch_missing request_id path authorization w p absent = ground (arith, p, absent)

-- Blanks around a token do not matter: a header gives the stripped token, and none where nothing is
-- left.
pub extract_bearer_token_lem :
    (pre token post : Text)
    → IsBlank pre
    → IsBlank post
    → extract_bearer_token (some (authorization_prefix ++ (pre ++ (token ++ post))))
      ≡ non_empty (strip token)
unfolding extract_bearer_token
extract_bearer_token_lem pre token post h k = ap non_empty (strip-blank pre token post h k)

-- The middleware guards what is under its paths: each path, and all behind a slash, and nothing that
-- only begins alike.
pub is_protected_path_lem :
    (rest : Text)
    → (is_protected_path (codes "/v1/chat/completions" ++ codes "/" ++ rest) ≡ true)
      × (is_protected_path (codes "/v1/batch" ++ codes "/" ++ rest) ≡ true)
      × (is_protected_path (codes "/v1/chat/completions" ++ codes "x" ++ rest) ≡ false)
      × (is_protected_path (codes "/v1/models" ++ rest) ≡ false)
unfolding is_protected_path
is_protected_path_lem rest = (refl, refl, refl, refl)
