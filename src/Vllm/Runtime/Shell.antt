-- ===== src/Vllm/Runtime/Shell.antt =====
-- How a POSIX shell reads a command line of `command_to_shell` (backend/services/vllm/runtime.py):
-- words between spaces, single quotes that take all as it stands, and double quotes.
use ansuman_gpu_inference_se.Prelude.{
  ℕ, Bool, true, false, ◌||◌, Option, none, some, ◌≡◌, refl, sym, ap, ◌∙◌, List, [], ◌∷◌, ◌++◌,
  arith, ◌==◌, if◌then◌else◌, inl, inr, Bool-cases,
}
use mathlib.Core.List.{append_assoc, append-nil}
use ansuman_gpu_inference_se.Text.{Text}
use ansuman_gpu_inference_se.Vllm.Runtime.{is_bare, all_bare, escaped, quote, command_to_shell}

pub data Mode : Type 0 where
  plain single double : Mode

-- The words that are complete, and the one that is being read, if one has begun.
pub record Reading : Type 0 where
  pub mode : Mode
  pub words : List Text
  pub begun : Bool
  pub word : Text

abbrev pub at_start : List Text → Reading
at_start words = record { mode = plain; words = words; begun = false; word = [] }

abbrev within_word : Mode → List Text → Text → Reading
within_word mode words word = record { mode = mode; words = words; begun = true; word = word }

abbrev pub all_words : List Text → Bool → Text → List Text
all_words words true word = words ++ word ∷ []
all_words words false word = words

-- A code point outside quotes. What has a meaning of its own for the shell is refused.
unfoldable read_plain : ℕ → Reading → Option Reading
read_plain c r =
    if c == 32
    then some (at_start (all_words r.words r.begun r.word))
    else if c == 39
    then some (within_word single r.words r.word)
    else if c == 34
    then some (within_word double r.words r.word)
    else if is_bare c
    then some (within_word plain r.words (r.word ++ c ∷ []))
    else none

-- Within double quotes `"`, `$`, a backquote and a backslash are special.
unfoldable read_double : ℕ → Reading → Option Reading
read_double c r =
    if c == 34
    then some (within_word plain r.words r.word)
    else if c == 36 || c == 96 || c == 92
    then none
    else some (within_word double r.words (r.word ++ c ∷ []))

unfoldable read_single : ℕ → Reading → Option Reading
read_single c r =
    if c == 39
    then some (within_word plain r.words r.word)
    else some (within_word single r.words (r.word ++ c ∷ []))

unfoldable read_at : Mode → ℕ → Reading → Option Reading
unfolding read_plain read_single read_double
read_at plain c r = read_plain c r
read_at single c r = read_single c r
read_at double c r = read_double c r

unfoldable scan : Text → Reading → Option Reading
unfolding read_at
scan [] r = some r
scan (c ∷ s) r = elim (read_at r.mode c r) [ none ↦ none | some r' ↦ scan s r' ]

-- An open quote is no complete command.
abbrev finished : Reading → Option (List Text)
finished r = elim (r.mode) [ plain ↦ some (all_words r.words r.begun r.word) | _ ↦ none ]

abbrev outcome : Option Reading → Option (List Text)
outcome none = none
outcome (some r) = finished r

unfoldable pub shell_words : Text → Option (List Text)
unfolding scan
shell_words s = outcome (scan s (at_start []))

abbrev resume : Text → Option Reading → Option Reading
resume t none = none
resume t (some r) = scan t r

scan-append : (s t : Text) (r : Reading) → scan (s ++ t) r ≡ resume t (scan s r)
unfolding scan
scan-append [] t r = refl
scan-append (c ∷ s) t r =
    elim (read_at r.mode c r)
      as (λ o.
        elim o [ none ↦ none | some q ↦ scan (s ++ t) q ]
        ≡ resume t (elim o [ none ↦ none | some q ↦ scan s q ])) [
          | none ↦ refl
          | some q ↦ scan-append s t q
        ]

quote-bare : (c : ℕ) (s : Text) → all_bare (c ∷ s) ≡ true → quote (c ∷ s) ≡ c ∷ s
unfolding quote
quote-bare c s h = rw h refl

quote-unsafe :
    (c : ℕ) (s : Text)
    → all_bare (c ∷ s) ≡ false
    → quote (c ∷ s) ≡ 39 ∷ (escaped (c ∷ s) ++ 39 ∷ [])
unfolding quote
quote-unsafe c s h = rw h refl

-- Text that stands between other texts is read from where they left the reader.
module _ (words : List Text) where
  scan-bare :
      (s word : Text)
      → all_bare s ≡ true
      → scan s (within_word plain words word) ≡ some (within_word plain words (word ++ s))
  unfolding scan all_bare is_bare read_at read_plain
  scan-bare [] word h = ap (λ t. some (within_word plain words t)) (sym (append-nil word))
  scan-bare (c ∷ s) word h =
      ground (arith, scan-bare s (word ++ c ∷ []), append_assoc {A = ℕ} word (c ∷ []) s)

  scan-first :
      (c : ℕ) (s : Text)
      → all_bare (c ∷ s) ≡ true
      → scan (c ∷ s) (at_start words) ≡ some (within_word plain words (c ∷ s))
  unfolding scan all_bare is_bare read_at read_plain
  scan-first c s h = ground (arith, scan-bare s (c ∷ []))

  scan-escaped :
      (s word : Text)
      → scan (escaped s) (within_word single words word)
        ≡ some (within_word single words (word ++ s))
  unfolding scan escaped read_at read_plain read_single read_double
  scan-escaped [] word = ap (λ t. some (within_word single words t)) (sym (append-nil word))
  scan-escaped (c ∷ s) word = elim (Bool-cases (c == 39)) [
    | inl quoted ↦
        ground
          (arith, quoted, scan-escaped s (word ++ c ∷ []), append_assoc {A = ℕ} word (c ∷ []) s)
    | inr other ↦
        ground (arith, other, scan-escaped s (word ++ c ∷ []), append_assoc {A = ℕ} word (c ∷ []) s)
  ]

  scan-single :
      (p : Text)
      → scan (39 ∷ (escaped p ++ 39 ∷ [])) (at_start words) ≡ some (within_word plain words p)
  unfolding scan read_at read_plain read_single
  scan-single p =
      scan-append (escaped p) (39 ∷ []) (within_word single words [])
      ∙ ap (resume (39 ∷ [])) (scan-escaped p [])

  -- A quoted text is read as one word, that text.
  scan-quote : (p : Text) → scan (quote p) (at_start words) ≡ some (within_word plain words p)
  scan-quote [] = unfold scan read_at read_plain read_single quote in refl
  scan-quote (c ∷ s) = elim (Bool-cases (all_bare (c ∷ s))) [
    | inl bare ↦ rw (quote-bare c s bare) (scan-first c s bare)
    | inr unsafe ↦ rw (quote-unsafe c s unsafe) (scan-single (c ∷ s))
  ]

-- Behind a quoted word there is a space, and the rest of the command is read from a fresh start.
command_to_shell-from :
    (part : Text) (parts words : List Text)
    → outcome (scan (command_to_shell (part ∷ parts)) (at_start words))
      ≡ some (words ++ part ∷ parts)
unfolding command_to_shell scan read_at read_plain
command_to_shell-from part [] words = ap outcome (scan-quote words part)
command_to_shell-from part (next ∷ parts) words =
    let rest = command_to_shell (next ∷ parts) in
    ap outcome (
      scan-append (quote part) (32 ∷ rest) (at_start words)
      ∙ ap (resume (32 ∷ rest)) (scan-quote words part))
    ∙ command_to_shell-from next parts (words ++ part ∷ [])
    ∙ ap some (append_assoc words (part ∷ []) (next ∷ parts))

-- What `command_to_shell` renders, a shell reads back as the same words, whatever they hold: blanks,
-- quotes, the empty word, and characters that are special to the shell.
pub shell_words-command_to_shell :
    (command : List Text) → shell_words (command_to_shell command) ≡ some command
unfolding shell_words command_to_shell
shell_words-command_to_shell [] = refl
shell_words-command_to_shell (part ∷ parts) = command_to_shell-from part parts []
