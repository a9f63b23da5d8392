-- ===== src/Tokens/Estimate/Counts.antt =====
-- What the estimate of backend/services/inference/token_accounting.py counts.
use ansuman_gpu_inference_se.Prelude.{
  ℕ, ◌+◌, ◌*◌, ◌≤◌, ℤ, pos, ◌+ℤ◌, ◌≤ℤ◌, int_laws, ◌≡◌, refl, List, [], ◌∷◌, ◌++◌, length, arith, ap,
  ◌∙◌,
}
use ansuman_gpu_inference_se.Text.{Text, strip}
use ansuman_gpu_inference_se.Text.Blanks.{IsBlank, strip-blank}
use ansuman_gpu_inference_se.Tokens.Estimate.{
  ChatMessage, TokenEstimator, count_text, stripped_count, add_messages, estimate_prompt_tokens,
}

-- The heuristic count does not depend on blank ends: padding a text on both sides changes nothing.
pub count_text-blank :
    (pre s post : Text)
    → IsBlank pre
    → IsBlank post
    → count_text (pre ++ (s ++ post)) ≡ count_text s
unfolding count_text
count_text-blank pre s post h k = ap stripped_count (strip-blank pre s post h k)

stripped_count_bounds :
    (s : Text) → (n : ℕ) × (stripped_count s ≡ pos n) × (length s ≤ 4 * n) × (4 * n ≤ length s + 3)
unfolding stripped_count
stripped_count_bounds [] = (0, refl, omega arith, omega arith)
stripped_count_bounds (c ∷ s) = (_, refl, omega arith, omega arith)

-- The heuristic count of a text is its stripped length divided by four, rounded up.
pub count_text_quarter :
    (s : Text)
    → (n : ℕ) × (count_text s ≡ pos n) × (length (strip s) ≤ 4 * n) × (4 * n ≤ length (strip s) + 3)
unfolding count_text
count_text_quarter s = stripped_count_bounds (strip s)

module _ (count : TokenEstimator) where
  -- The tokens of one message with its overhead.
  abbrev message_tokens : ChatMessage → ℤ
  message_tokens m = pos 4 +ℤ count m.role +ℤ count m.content

  abbrev pub sum_tokens : List ChatMessage → ℤ
  sum_tokens [] = pos 0
  sum_tokens (m ∷ ms) = message_tokens m +ℤ sum_tokens ms

  add_messages-eq-sum :
      (total : ℤ) (ms : List ChatMessage) → add_messages count total ms ≡ total +ℤ sum_tokens ms
  unfolding add_messages
  add_messages-eq-sum total [] = omega int_laws
  add_messages-eq-sum total (m ∷ ms) =
      add_messages-eq-sum (total +ℤ pos 4 +ℤ count m.role +ℤ count m.content) ms ∙ omega int_laws

  -- The estimate of a prompt is the sum over its messages, and two tokens more.
  pub estimate-eq-sum :
      (ms : List ChatMessage) → estimate_prompt_tokens ms count ≡ sum_tokens ms +ℤ pos 2
  unfolding estimate_prompt_tokens
  estimate-eq-sum ms = rw (add_messages-eq-sum (pos 0) ms) (omega int_laws)

  sum_tokens-append :
      (xs ys : List ChatMessage) → sum_tokens (xs ++ ys) ≡ sum_tokens xs +ℤ sum_tokens ys
  sum_tokens-append [] ys = omega int_laws
  sum_tokens-append (m ∷ xs) ys = rw (sum_tokens-append xs ys) (omega int_laws)

  -- The estimate of a prompt is additive: that of two conversations joined is the sum of both, less
  -- the two tokens that each conversation starts with.
  pub estimate-append :
      (xs ys : List ChatMessage)
      → estimate_prompt_tokens (xs ++ ys) count +ℤ pos 2
        ≡ estimate_prompt_tokens xs count +ℤ estimate_prompt_tokens ys count
  unfolding estimate_prompt_tokens
  estimate-append xs ys = simp (add_messages-eq-sum, sum_tokens-append) (omega int_laws)

  sum_tokens_lower :
      ((s : Text) → pos 0 ≤ℤ count s)
      → (ms : List ChatMessage) → pos (4 * length ms) ≤ℤ sum_tokens ms
  sum_tokens_lower h [] = omega arith
  sum_tokens_lower h (m ∷ ms) = omega (int_laws, h m.role, h m.content, sum_tokens_lower h ms)

  -- With an estimator that counts no text below 0, a prompt of n messages costs at least 4n + 2.
  pub estimate_lower :
      (ms : List ChatMessage)
      → ((s : Text) → pos 0 ≤ℤ count s)
      → pos (4 * length ms + 2) ≤ℤ estimate_prompt_tokens ms count
  unfolding estimate_prompt_tokens
  estimate_lower ms h =
      rw (add_messages-eq-sum (pos 0) ms) (omega (int_laws, sum_tokens_lower h ms))
