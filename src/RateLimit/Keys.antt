-- ===== src/RateLimit/Keys.antt =====
-- The Redis keys of backend/services/rate_limit: one counter for each key and purpose.
use Prim.Native.Char.{code}
use Prim.Native.String.{◌++◌, count}
use Prim.Native.String.append
use text.Mathlib.TextLemmas.{append_cancel_left, append_cancel_right, append_inj, length-append}
use ansuman_gpu_inference_se.Prelude.{ℕ, String, ◌≡◌, ◌≢◌, refl, ap, false, arith, ◌=?◌, eq_iff}
use ansuman_gpu_inference_se.RateLimit.Limiter.{rpm_key, tpm_key}
use ansuman_gpu_inference_se.RateLimit.Concurrency.{concurrency_key}

abbrev first : String → ℕ
first String.[] = 0
first (String.◌∷◌ c s) = code c

-- A text that begins with a known letter.
first-append : (p s : String) → p ≢ "" → first (p ++ s) ≡ first p
first-append String.[] s h = absurd (h refl)
first-append (String.◌∷◌ c p) s h = rw append.cons refl

differ : (s t : String) → s ≢ t → (s =? t) ≡ false
differ s t h = ground (arith, eq_iff s t)

first-rl : (s : String) → first ("rl:api_key:" ++ s) ≡ b'r'
first-rl s = first-append "rl:api_key:" s (ground (arith, eq_iff "rl:api_key:" ""))

first-concurrency_key : (b : String) → first (concurrency_key b) ≡ b'c'
unfolding concurrency_key
first-concurrency_key b =
    first-append "concurrent:api_key:" b (ground (arith, eq_iff "concurrent:api_key:" ""))

suffixes_differ : (a b : String) → a ++ ":rpm" ≢ b ++ ":tpm"
suffixes_differ a b e =
    let lengths : count a ≡ count b =
      omega (arith, ap count e, length-append a ":rpm", length-append b ":tpm") in
    ground (arith, (append_inj e lengths).1, eq_iff ":rpm" ":tpm")

-- The request counter, the token counter and the concurrency counter of any keys are three
-- different Redis keys, and each kind names one counter for each API key.
pub keys_apart :
    (a b : String)
    → ((rpm_key a =? concurrency_key b) ≡ false)
      × ((tpm_key a =? concurrency_key b) ≡ false)
      × ((rpm_key a =? tpm_key b) ≡ false)
      × (rpm_key a ≡ rpm_key b → a ≡ b)
      × (tpm_key a ≡ tpm_key b → a ≡ b)
      × (concurrency_key a ≡ concurrency_key b → a ≡ b)
keys_apart a b = (
  differ _ _ (
      unfold rpm_key in
      λ e. omega (arith, ap first e, first-rl (a ++ ":rpm"), first-concurrency_key b)),
  differ _ _ (
      unfold tpm_key in
      λ e. omega (arith, ap first e, first-rl (a ++ ":tpm"), first-concurrency_key b)),
  differ _ _ (unfold rpm_key tpm_key in λ e. suffixes_differ a b (append_cancel_left _ _ _ e)),
  unfold rpm_key in (λ e. append_cancel_right _ _ _ (append_cancel_left _ _ _ e)),
  unfold tpm_key in (λ e. append_cancel_right _ _ _ (append_cancel_left _ _ _ e)),
  unfold concurrency_key in (λ e. append_cancel_left _ _ _ e),
)
