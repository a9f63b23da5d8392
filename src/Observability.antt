-- ===== src/Observability.antt =====
-- What is reported to Sentry (backend/services/observability/sentry.py).
pub mod Scrubbed
pub mod Metrics
pub mod Sentry
mod Examples
use ansuman_gpu_inference_se.Prelude.{
  ℕ, ◌<◌, String, Bool, true, false, ◌||◌, not, List, [], ◌∷◌, ltb, ◌=?◌, ◌≡◌, refl, ap, arith, inl,
  inr, Bool-cases, if◌then◌else◌,
}
use ansuman_gpu_inference_se.Text.{Text, codes, lower, starts_with, eqb_text}
use ansuman_gpu_inference_se.Json.{
  Json, Items, Fields, null, bool, int, float, nonfinite, str, arr, obj, nil, cons, end, field,
}
use ansuman_gpu_inference_se.Io.{AppError, Exc, app, error, cancelled}

abbrev pub redacted : Text
redacted = codes "[Filtered]"

-- `part in key`
abbrev pub occurs_in : Text → Text → Bool
occurs_in part [] = starts_with [] part
occurs_in part (c ∷ key) = starts_with (c ∷ key) part || occurs_in part key

abbrev pub any_in : List Text → Text → Bool
any_in [] key = false
any_in (part ∷ parts) key = occurs_in part key || any_in parts key

abbrev pub secret_key_parts : List Text
secret_key_parts =
    codes "authorization"
    ∷ codes "cookie"
    ∷ codes "password"
    ∷ codes "passwd"
    ∷ codes "secret"
    ∷ codes "token"
    ∷ codes "dsn"
    ∷ codes "credential"
    ∷ codes "private_key"
    ∷ codes "tunnel"
    ∷ []

abbrev pub payload_key_parts : List Text
payload_key_parts = codes "prompt" ∷ codes "messages" ∷ codes "input" ∷ []

-- `_is_secret_key`
unfoldable pub is_secret_key : Text → Bool
is_secret_key key =
    if eqb_text key (codes "api_key_id")
    then false
    else if eqb_text key (codes "api_key") || eqb_text key (codes "apikey")
    then true
    else any_in secret_key_parts key

-- `_is_payload_key`
unfoldable pub is_payload_key : Text → Bool
is_payload_key key = any_in payload_key_parts key

-- `_is_secret_key(key_text) or _is_payload_key(key_text)`
unfoldable pub is_sensitive : String → Bool
unfolding is_secret_key is_payload_key lower
is_sensitive key =
    let key_text = lower (codes key) in is_secret_key key_text || is_payload_key key_text

-- `should_skip_exception`
unfoldable pub should_skip_exception : Exc → Bool
should_skip_exception (app e) = ltb e.status_code 500
should_skip_exception _ = false

-- `scrub_data`, over any `_scrub_string`, which is three substitutions by regular expressions. A
-- tuple is an array here, as it is in the JSON that is sent.
module _ (scrub_string : Text → Text) where
  unfoldable mutual
    pub scrub_data : Json → Json
    scrub_data (obj fs) = obj (scrub_fields fs)
    scrub_data (arr xs) = arr (scrub_items xs)
    scrub_data (str s) = str (scrub_string s)
    scrub_data null = null
    scrub_data (bool b) = bool b
    scrub_data (int n) = int n
    scrub_data (float n k) = float n k
    scrub_data nonfinite = nonfinite

    pub scrub_items : Items → Items
    scrub_items nil = nil
    scrub_items (cons x xs) = cons (scrub_data x) (scrub_items xs)

    pub scrub_fields : Fields → Fields
    scrub_fields end = end
    scrub_fields (field k v fs) =
        let item = scrub_data v in
        field k (if is_sensitive k then str redacted else item) (scrub_fields fs)
