-- ===== src/Auth/Examples.antt =====
-- A database of one API key, and the theorems at it.
use ansuman_gpu_inference_se.Prelude.{
  String, ◌≡◌, refl, Option, none, some, [], ◌∷◌, ◌++◌, ◌=?◌, if◌then◌else◌,
}
use ansuman_gpu_inference_se.Io.{ok}
use ansuman_gpu_inference_se.Session.{Sessions, Table, session_scope}
use ansuman_gpu_inference_se.Text.{Text, codes}
use ansuman_gpu_inference_se.Auth.Keys.{
  ApiKey, authenticate, create_api_key, auth_context_from_api_key, key_debug_prefix,
  generate_api_key, normalized_prefix, validate_api_key_state,
}
use ansuman_gpu_inference_se.Auth.Keys.Checks.{
  IsValid, authenticate_ok, authenticate_unchanged, create_api_key_unchanged,
  generate_api_key-underscore,
}

abbrev key : ApiKey
key = record {
  id = "k";
  user_id = "u";
  project_id = "p";
  name = "main";
  key_hash = "hash";
  key_prefix = codes "an_";
  allowed_models = none;
  expires_at = some 9;
  revoked_at = none;
  last_used_at = none;
}

abbrev sessions : Sessions ApiKey ApiKey
sessions = record { begin = λ w. w; commit = λ t w. (ok tt, t) }

abbrev api_keys : Table ApiKey ApiKey
api_keys = record { find = λ t k. if t.id =? k then some t else none; save = λ k r t. r }

abbrev by_hash : ApiKey → String → Option ApiKey
by_hash t h = if t.key_hash =? h then some t else none

abbrev hash_of : Text → String
hash_of t = "hash"

authenticate_ok_example :
    (api_key : ApiKey) × (by_hash (sessions.begin key) (hash_of (codes "an_secret")) ≡ some api_key)
    × IsValid api_key 5
    × (auth_context_from_api_key key ≡ auth_context_from_api_key api_key)
unfolding authenticate session_scope validate_api_key_state
authenticate_ok_example =
    authenticate_ok sessions api_keys by_hash hash_of 5 (codes "an_secret") key
      {context = auth_context_from_api_key key} refl

authenticate_unchanged_example :
    (authenticate sessions api_keys by_hash hash_of 5 (codes "an_secret") key).1 ≡ key
authenticate_unchanged_example =
    authenticate_unchanged sessions api_keys by_hash hash_of 5 (codes "an_secret") key

create_api_key_unchanged_example :
    let (r, w') = create_api_key sessions api_keys by_hash hash_of 5 (codes "an_secret") key key in
    (r
      ≡ ok (record {
        raw_key = codes "an_secret";
        api_key_id = "k";
        key_prefix = key_debug_prefix (codes "an_secret");
      }))
    × (w' ≡ key)
create_api_key_unchanged_example =
    create_api_key_unchanged sessions api_keys by_hash hash_of 5 (codes "an_secret") key key

generate_api_key-underscore_example :
    generate_api_key (codes "an" ++ b'_' ∷ []) (codes "tok")
    ≡ generate_api_key (codes "an") (codes "tok")
unfolding normalized_prefix
generate_api_key-underscore_example = generate_api_key-underscore (codes "an") (codes "tok") refl
