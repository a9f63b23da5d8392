-- ===== src/Vllm/Runtime.antt =====
-- backend/services/vllm/runtime.py: the command that starts vLLM, its rendering for a shell, and the
-- wait until the server answers.
pub mod Shell
pub mod Ready
mod Examples
use ansuman_gpu_inference_se.Prelude.{
  ℕ, zero, suc, ◌+◌, ℤ, pos, negsuc, String, Bool, true, false, ◌&&◌, ◌||◌, Option, none, some,
  List, [], ◌∷◌, ◌++◌, ltb, leb, ◌==◌, if◌then◌else◌,
}
use ansuman_gpu_inference_se.Text.{Text, codes}
use ansuman_gpu_inference_se.Text.Decimal.{str_of_ℕ}
use ansuman_gpu_inference_se.Io.{
  AppError, Exc, app, error, cancelled, Result, ok, raised, Io, pure, raise, ◌>>◌,
}
use ansuman_gpu_inference_se.Config.{Settings, vllm_served_model}

-- `str(n)`
unfoldable pub str_of_ℤ : ℤ → Text
str_of_ℤ (pos n) = codes (str_of_ℕ n)
str_of_ℤ (negsuc n) = b'-' ∷ codes (str_of_ℕ (suc n))

-- The code points that `shlex.quote` leaves bare: ASCII letters, digits and `_@%+=:,./-`.
unfoldable pub is_bare : ℕ → Bool
is_bare c =
    leb b'a' c && leb c b'z'
    || leb b'A' c && leb c b'Z'
    || leb b'0' c && leb c b'9'
    || c == b'_'
    || c == b'@'
    || c == b'%'
    || c == b'+'
    || c == b'='
    || c == b':'
    || c == b','
    || c == b'.'
    || c == b'/'
    || c == b'-'

unfoldable pub all_bare : Text → Bool
unfolding is_bare
all_bare [] = true
all_bare (c ∷ s) = is_bare c && all_bare s

-- `s.replace("'", "'\"'\"'")`
unfoldable pub escaped : Text → Text
escaped [] = []
escaped (c ∷ s) = (if c == 39 then 39 ∷ 34 ∷ 39 ∷ 34 ∷ 39 ∷ [] else c ∷ []) ++ escaped s

-- `shlex.quote`
unfoldable pub quote : Text → Text
unfolding all_bare escaped
quote [] = 39 ∷ 39 ∷ []
quote (c ∷ s) = if all_bare (c ∷ s) then c ∷ s else 39 ∷ (escaped (c ∷ s) ++ 39 ∷ [])

-- `command_to_shell`
unfoldable pub command_to_shell : List Text → Text
unfolding quote
command_to_shell [] = []
command_to_shell (part ∷ []) = quote part
command_to_shell (part ∷ next ∷ parts) = quote part ++ 32 ∷ command_to_shell (next ∷ parts)

-- `build_vllm_serve_command`; `str_of_float` is Python's `str` of a double.
unfoldable pub build_vllm_serve_command :
    {Float : Type 0} → (Float → Text) → Settings Float → List Text
unfolding str_of_ℤ vllm_served_model
build_vllm_serve_command str_of_float settings =
    codes "vllm"
    ∷ codes "serve"
    ∷ settings.vllm_model_path
    ∷ codes "--host"
    ∷ settings.vllm_host
    ∷ codes "--port"
    ∷ str_of_ℤ settings.vllm_port
    ∷ codes "--served-model-name"
    ∷ vllm_served_model settings
    ∷ codes "--tensor-parallel-size"
    ∷ str_of_ℤ settings.vllm_tensor_parallel_size
    ∷ codes "--max-model-len"
    ∷ str_of_ℤ settings.vllm_max_model_len
    ∷ codes "--gpu-memory-utilization"
    ∷ str_of_float settings.vllm_gpu_memory_utilization
    ∷ codes "--max-num-seqs"
    ∷ str_of_ℤ settings.vllm_max_num_seqs
    ∷ codes "--max-num-batched-tokens"
    ∷ str_of_ℤ settings.vllm_max_num_batched_tokens
    ∷ []

abbrev pub vllm_not_ready : AppError
vllm_not_ready = record {
  message = "vLLM did not become ready before the startup timeout";
  code = "vllm_not_ready";
  status_code = 503;
  type = "server_error";
  param = none;
}

-- `response.status_code < 500` and `raise_for_status()`, which lets a status of 200 to 299 pass.
abbrev pub is_success : ℕ → Bool
is_success status = leb 200 status && ltb status 300

-- `get` is the client's GET of /v1/models, by its status; `monotonic` reads the clock in the unit of
-- the deadline.
module _ {W : Type 0} (get : Io W ℕ) (sleep : Io W (Unit {0})) (monotonic : W → ℕ) where
  -- Whether one turn of the loop ends it by `return`.
  abbrev pub answered : Result ℕ → Result Bool
  answered (ok status) = ok (is_success status)
  answered (raised cancelled) = raised cancelled
  answered (raised e) = ok false

  -- What a turn comes to, from its answer and its sleep.
  abbrev pub turn :
      Result Bool
      → W
      → Result (Unit {0}) × W
      → Option (Result (Unit {0}) × W)
      → Option (Result (Unit {0}) × W)
  turn (ok true) w' slept rest = some (ok tt, w')
  turn (ok false) w' (ok _, w'') rest = rest
  turn (ok false) w' (raised e, w'') rest = some (raised e, w'')
  turn (raised e) w' slept rest = some (raised e, w')

  -- The loop on fuel, where `none` says that it was not enough.
  unfoldable pub poll : ℕ → ℕ → W → Option (Result (Unit {0}) × W)
  poll zero deadline w = none
  poll (suc fuel) deadline w =
      let (r, w') = get w in
      let rest = poll fuel deadline (sleep w').1 in
      if ltb (monotonic w) deadline
      then turn (answered r) w' (sleep w') rest
      else some (raised (app vllm_not_ready), w)

  -- `wait_for_vllm_ready`
  unfoldable pub wait_for_vllm_ready : ℕ → ℕ → W → Option (Result (Unit {0}) × W)
  unfolding poll
  wait_for_vllm_ready fuel timeout w = poll fuel (monotonic w + timeout) w
