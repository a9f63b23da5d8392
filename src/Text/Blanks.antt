-- ===== src/Text/Blanks.antt =====
-- Blank ends do not matter to `str.strip`.
use ansuman_gpu_inference_se.Prelude.{
  ◌≡◌, refl, true, [], ◌∷◌, ◌++◌, All, arith, ℕ, sym, ap, ◌∙◌, inl, inr, Bool-cases,
}
use ansuman_gpu_inference_se.Text.{Text, is_space, lstrip, rstrip, push, strip}

abbrev pub IsBlank : Text → Type 0
IsBlank = All (λ c. is_space c ≡ true)

lstrip-blank : (pre s : Text) → IsBlank pre → lstrip (pre ++ s) ≡ lstrip s
unfolding lstrip
lstrip-blank [] s h = refl
lstrip-blank (c ∷ pre) s h = ground (arith, lstrip-blank pre s h.1)

rstrip-of_blank : (post : Text) → IsBlank post → rstrip post ≡ []
unfolding rstrip
rstrip-of_blank [] h = refl
rstrip-of_blank (c ∷ post) h = rw (rstrip-of_blank post h.1) (ground arith)

rstrip-blank : (s post : Text) → IsBlank post → rstrip (s ++ post) ≡ rstrip s
unfolding rstrip
rstrip-blank [] post h = rstrip-of_blank post h
rstrip-blank (c ∷ s) post h = ap (push c) (rstrip-blank s post h)

lstrip-of_blank : (post : Text) → IsBlank post → lstrip post ≡ []
unfolding lstrip
lstrip-of_blank [] h = refl
lstrip-of_blank (c ∷ post) h = ground (arith, lstrip-of_blank post h.1)

rstrip-lstrip-blank :
    (s post : Text) → IsBlank post → rstrip (lstrip (s ++ post)) ≡ rstrip (lstrip s)
unfolding lstrip
rstrip-lstrip-blank [] post h = ap rstrip (lstrip-of_blank post h)
rstrip-lstrip-blank (c ∷ s) post h =
    ground (arith, rstrip-lstrip-blank s post h, rstrip-blank (c ∷ s) post h)

-- What stands between blank ends is stripped to the same text, whatever the ends are.
pub strip-blank :
    (pre s post : Text) → IsBlank pre → IsBlank post → strip (pre ++ (s ++ post)) ≡ strip s
unfolding strip
strip-blank pre s post h k =
    ap rstrip (lstrip-blank pre (s ++ post) h) ∙ rstrip-lstrip-blank s post k

-- A text is its blank beginning and what `lstrip` leaves.
lstrip-split : (s : Text) → (pre : Text) × IsBlank pre × (s ≡ pre ++ lstrip s)
unfolding lstrip
lstrip-split [] = ([], tt, refl)
lstrip-split (c ∷ s) = elim (Bool-cases (is_space c)) [
  | inl blank ↦ let (pre, h, e) = lstrip-split s in (c ∷ pre, (blank, h), ground (arith, e))
  | inr word ↦ ([], tt, ground arith)
]

push-split :
    (c : ℕ) (r post : Text)
    → IsBlank post
    → (x : Text) × IsBlank x × ◌≡◌ {A = Text} (c ∷ (r ++ post)) (push c r ++ x)
unfolding push
push-split c (d ∷ r) post h = (post, h, refl)
push-split c [] post h = elim (Bool-cases (is_space c)) [
  | inl blank ↦ (c ∷ post, (blank, h), ground arith)
  | inr word ↦ (post, h, ground arith)
]

rstrip-split : (s : Text) → (post : Text) × IsBlank post × (s ≡ rstrip s ++ post)
unfolding rstrip
rstrip-split [] = ([], tt, refl)
rstrip-split (c ∷ s) =
    let (post, h, e) = rstrip-split s in
    let (x, blank, f) = push-split c (rstrip s) post h in (x, blank, ap (λ t. c ∷ t) e ∙ f)

-- Stripping twice is stripping once.
pub strip-strip : (s : Text) → strip (strip s) ≡ strip s
unfolding strip
strip-strip s =
    let (pre, h, e) = lstrip-split s in
    let (post, k, f) = rstrip-split (lstrip s) in
    sym (strip-blank pre (strip s) post h k) ∙ ap strip (sym (e ∙ ap (λ t. pre ++ t) f))
