-- ===== src/Auth/Keys.antt =====
-- backend/services/auth/api_key_service.py: who may call, and with which models.
pub mod Checks
use ansuman_gpu_inference_se.Prelude.{
  ℕ, String, Bool, true, false, Option, none, some, List, [], ◌∷◌, leb, contains, lookup, take,
  ◌=?◌, ◌==◌, ◌++◌, if◌then◌else◌,
}
use ansuman_gpu_inference_se.Io.{
  AppError, app, error, Result, ok, raised, Io, pure, raise, ◌>>=◌, ◌>>◌,
}
use ansuman_gpu_inference_se.Session.{Sessions, Table, Exit, returned, session_scope}
use ansuman_gpu_inference_se.Text.{Text, codes}

pub record AuthContext : Type 0 where
  pub api_key_id : String
  pub user_id : String
  pub project_id : String
  pub allowed_models : Option (List String)

-- The row of backend/models/api_key.py; times are in one unit since one epoch.
pub record ApiKey : Type 0 where
  pub id : String
  pub user_id : String
  pub project_id : String
  pub name : String
  pub key_hash : String
  pub key_prefix : Text
  pub allowed_models : Option (List String)
  pub expires_at : Option ℕ
  pub revoked_at : Option ℕ
  pub last_used_at : Option ℕ

pub record CreatedApiKey : Type 0 where
  pub raw_key : Text
  pub api_key_id : String
  pub key_prefix : Text

abbrev invalid_request : String → String → AppError
invalid_request message code = record {
  message = message;
  code = code;
  status_code = 401;
  type = "invalid_request_error";
  param = none;
}

abbrev pub missing_api_key_error : AppError
missing_api_key_error = invalid_request "Missing API key" "missing_api_key"

abbrev pub invalid_api_key_error : AppError
invalid_api_key_error = invalid_request "Invalid API key" "invalid_api_key"

abbrev pub expired_api_key_error : AppError
expired_api_key_error = invalid_request "API key has expired" "expired_api_key"

abbrev pub revoked_api_key_error : AppError
revoked_api_key_error = invalid_request "API key has been revoked" "revoked_api_key"

abbrev pub model_not_allowed : AppError
model_not_allowed = record {
  message = "API key is not allowed to access the requested model";
  code = "model_not_allowed";
  status_code = 403;
  type = "invalid_request_error";
  param = some "model";
}

-- `expires_at is not None and expires_at <= utc_now()`
abbrev pub expired : Option ℕ → ℕ → Bool
expired none now = false
expired (some t) now = leb t now

abbrev pub is_some {ℓ} : {A : Type ℓ} → Option A → Bool
is_some none = false
is_some (some _) = true

unfoldable pub validate_api_key_state : ApiKey → ℕ → Result (Unit {0})
validate_api_key_state api_key now =
    if is_some api_key.revoked_at
    then raised (app revoked_api_key_error)
    else if expired api_key.expires_at now
    then raised (app expired_api_key_error)
    else ok tt

abbrev pub auth_context_from_api_key : ApiKey → AuthContext
auth_context_from_api_key api_key = record {
  api_key_id = api_key.id;
  user_id = api_key.user_id;
  project_id = api_key.project_id;
  allowed_models = api_key.allowed_models;
}

abbrev models_permit : Option (List String) → String → Bool
models_permit none model = true
models_permit (some models) model = contains model models

unfoldable pub ensure_model_allowed : AuthContext → String → Result (Unit {0})
ensure_model_allowed auth_context model =
    if models_permit auth_context.allowed_models model
    then ok tt
    else raised (app model_not_allowed)

-- `key_debug_prefix`
abbrev pub key_debug_prefix_length : ℕ
key_debug_prefix_length = 16

unfoldable pub key_debug_prefix : Text → Text
key_debug_prefix raw_key = take key_debug_prefix_length raw_key

-- `s[:-1] if s.endswith("_") else s`
unfoldable pub normalized_prefix : Text → Text
normalized_prefix [] = []
normalized_prefix (c ∷ []) = if c == b'_' then [] else c ∷ []
normalized_prefix (c ∷ d ∷ s) = c ∷ normalized_prefix (d ∷ s)

-- `generate_api_key`; `token` is what `secrets.token_urlsafe(32)` drew.
unfoldable pub generate_api_key : Text → Text → Text
unfolding normalized_prefix
generate_api_key prefix token = normalized_prefix prefix ++ b'_' ∷ token

-- `ApiKeyService.authenticate`. SHA-256 (`hash_api_key`), the database and the clock are
-- parameters; `get_by_hash` is the repository's select on the unique column `key_hash`.
module _ {W T : Type 0} (sessions : Sessions W T) (api_keys : Table T ApiKey)
    (get_by_hash : T → String → Option ApiKey) (hash_api_key : Text → String) (utc_now : ℕ) where
  -- `ApiKeyRepository.mark_used`
  abbrev mark_used : ApiKey → Io T (Unit {0})
  mark_used api_key t =
      (ok tt, api_keys.save api_key.id (record api_key { last_used_at = some utc_now }) t)

  -- The body of the `async for` once the row has been read.
  checked : Option ApiKey → Io T (Exit AuthContext)
  checked none = raise (app invalid_api_key_error)
  checked (some api_key) = do
    (λ t. (validate_api_key_state api_key utc_now, t))
    mark_used api_key
    pure (returned (auth_context_from_api_key api_key))

  or_invalid : Option AuthContext → Io W AuthContext
  or_invalid none = raise (app invalid_api_key_error)
  or_invalid (some context) = pure context

  unfoldable pub authenticate : Text → Io W AuthContext
  unfolding checked or_invalid
  authenticate raw_key = do
    context ← session_scope sessions (λ t. checked (get_by_hash t (hash_api_key raw_key)) t)
    or_invalid context

  or_failed : Option CreatedApiKey → Io W CreatedApiKey
  or_failed none = raise (error "API key creation failed")
  or_failed (some created) = pure created

  -- `ApiKeyService.create_api_key`; `row` has the caller's fields and the id that the model draws.
  unfoldable pub create_api_key : Text → ApiKey → Io W CreatedApiKey
  unfolding or_failed key_debug_prefix
  create_api_key raw_key row =
      let api_key = record row {
        key_hash = hash_api_key raw_key;
        key_prefix = key_debug_prefix raw_key;
      } in
      session_scope sessions (λ t. (
        ok (
            returned (record {
              raw_key = raw_key;
              api_key_id = api_key.id;
              key_prefix = api_key.key_prefix;
            })),
        api_keys.save api_key.id api_key t,
      ))
      >>= or_failed

-- `StaticApiKeyAuthService.authenticate`
unfoldable pub static_authenticate :
    List (String × AuthContext) → List String → String → Result AuthContext
static_authenticate contexts revoked_keys raw_key =
    if contains raw_key revoked_keys
    then raised (app revoked_api_key_error)
    else elim (lookup raw_key contexts) [
      | none ↦ raised (app invalid_api_key_error)
      | some context ↦ ok context
    ]
