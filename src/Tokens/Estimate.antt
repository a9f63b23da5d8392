-- ===== src/Tokens/Estimate.antt =====
-- The token estimate of a prompt: `HeuristicTokenEstimator` and `estimate_prompt_tokens` of
-- backend/services/inference/token_accounting.py, and the messages of
-- backend/schemas/chat_completion.py.
pub mod Counts
use ansuman_gpu_inference_se.Prelude.{
  ℕ, zero, suc, ◌+◌, ◌/◌, max, ℤ, pos, ◌+ℤ◌, List, [], ◌∷◌, length, if◌then◌else◌,
}
use ansuman_gpu_inference_se.Text.{Text, strip}

-- `ChatMessage`; the role is one of four literals.
pub record ChatMessage : Type 0 where
  pub role : Text
  pub content : Text

-- `TokenEstimator.count_text`
abbrev pub TokenEstimator : Type 0
TokenEstimator = Text → ℤ

-- `math.ceil(n / 4)`; the float quotient is exact for any text that fits in memory.
abbrev pub ceil_quarter : ℕ → ℕ
ceil_quarter n = (n + 3) / 4

stripped_count : Text → ℤ
stripped_count [] = pos 0
stripped_count (c ∷ s) = pos (max 1 (ceil_quarter (length (c ∷ s))))

-- `HeuristicTokenEstimator.count_text`
unfoldable pub count_text : TokenEstimator
unfolding stripped_count strip
count_text text = stripped_count (strip text)

add_messages : TokenEstimator → ℤ → List ChatMessage → ℤ
add_messages count total [] = total
add_messages count total (m ∷ ms) =
    add_messages count (total +ℤ pos 4 +ℤ count m.role +ℤ count m.content) ms

-- `estimate_prompt_tokens`
unfoldable pub estimate_prompt_tokens : List ChatMessage → TokenEstimator → ℤ
unfolding add_messages
estimate_prompt_tokens messages count = add_messages count (pos 0) messages +ℤ pos 2
