-- ===== src/Auth/Keys/Checks.antt =====
-- What the API keys of backend/services/auth/api_key_service.py let through.
use ansuman_gpu_inference_se.Prelude.{
  ℕ, ◌<◌, String, ◌≡◌, refl, ap, Option, none, some, [], ◌∷◌, ◌++◌, arith, inl, inr, Option-cases,
}
use ansuman_gpu_inference_se.Io.{ok}
use ansuman_gpu_inference_se.Session.{Sessions, Table, session_scope}
use ansuman_gpu_inference_se.Text.{Text}
use ansuman_gpu_inference_se.Auth.Keys.{
  AuthContext, ApiKey, validate_api_key_state, auth_context_from_api_key, authenticate,
  create_api_key, key_debug_prefix, generate_api_key, normalized_prefix,
}

-- The key is in force at the time `now`.
pub record IsValid (api_key : ApiKey) (now : ℕ) : Type 0 where
  pub not_revoked : api_key.revoked_at ≡ none
  pub not_expired : (t : ℕ) → api_key.expires_at ≡ some t → now < t

validate_ok :
    (api_key : ApiKey) (now : ℕ) → validate_api_key_state api_key now ≡ ok tt → IsValid api_key now
unfolding validate_api_key_state
validate_ok api_key now h = record { not_revoked = ground arith; not_expired = λ t e. ground arith }

module _ {W T : Type 0} (sessions : Sessions W T) (api_keys : Table T ApiKey)
    (get_by_hash : T → String → Option ApiKey) (hash_api_key : Text → String) (utc_now : ℕ) where
  -- A caller is let in only with the hash of a stored key that is neither revoked nor expired, and
  -- then with that key's ids and models.
  pub authenticate_ok :
      (raw_key : Text) (w : W) {context : AuthContext}
      → (authenticate sessions api_keys get_by_hash hash_api_key utc_now raw_key w).0 ≡ ok context
      → (api_key : ApiKey) × (get_by_hash (sessions.begin w) (hash_api_key raw_key) ≡ some api_key)
        × IsValid api_key utc_now
        × (context ≡ auth_context_from_api_key api_key)
  unfolding authenticate session_scope
  authenticate_ok raw_key w {context} h =
      elim (Option-cases (get_by_hash (sessions.begin w) (hash_api_key raw_key))) [
        | inl unknown ↦ absurd (ground arith)
        | inr (api_key, e) ↦ (api_key, e, validate_ok api_key utc_now (ground arith), ground arith)
      ]

  -- Authentication commits nothing: the `last_used_at` that it writes is rolled back.
  pub authenticate_unchanged :
      (raw_key : Text) (w : W)
      → (authenticate sessions api_keys get_by_hash hash_api_key utc_now raw_key w).1 ≡ w
  unfolding authenticate session_scope
  authenticate_unchanged raw_key w = ground arith

  -- Creating a key hands out a raw key whose row is not committed.
  pub create_api_key_unchanged :
      (raw_key : Text) (row : ApiKey) (w : W)
      → let (r, w') =
          create_api_key sessions api_keys get_by_hash hash_api_key utc_now raw_key row w in
        (r
          ≡ ok (record {
            raw_key = raw_key;
            api_key_id = row.id;
            key_prefix = key_debug_prefix raw_key;
          }))
        × (w' ≡ w)
  unfolding create_api_key session_scope
  create_api_key_unchanged raw_key row w = (refl, refl)

normalized_prefix-append_underscore :
    (prefix : Text) → normalized_prefix (prefix ++ b'_' ∷ []) ≡ prefix
unfolding normalized_prefix
normalized_prefix-append_underscore [] = refl
normalized_prefix-append_underscore (c ∷ []) = refl
normalized_prefix-append_underscore (c ∷ d ∷ s) =
    ap (λ t. c ∷ t) (normalized_prefix-append_underscore (d ∷ s))

-- A configured prefix that ends with the underscore gives the same keys as one that leaves it out,
-- where the latter does not end with another.
pub generate_api_key-underscore :
    (prefix token : Text)
    → normalized_prefix prefix ≡ prefix
    → generate_api_key (prefix ++ b'_' ∷ []) token ≡ generate_api_key prefix token
unfolding generate_api_key
generate_api_key-underscore prefix token h = rw (normalized_prefix-append_underscore prefix, h) refl
