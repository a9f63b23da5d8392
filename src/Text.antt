-- ===== src/Text.antt =====
-- Python `str` as the list of its code points, where the program walks a text.
pub mod Blanks
pub mod Decimal
use Prim.Native.Char.{code}
use Prim.Native.String.{String}
use ansuman_gpu_inference_se.Prelude.{
  ℕ, ◌+◌, Bool, true, false, ◌&&◌, ◌||◌, List, [], ◌∷◌, leb, ◌==◌, if◌then◌else◌,
}

abbrev pub Text : Type 0
Text = List ℕ

-- The code points of a literal.
abbrev pub codes : String → Text
codes String.[] = []
codes (String.◌∷◌ c s) = code c ∷ codes s

-- `s == t`
abbrev pub eqb_text : Text → Text → Bool
eqb_text [] [] = true
eqb_text [] (y ∷ ys) = false
eqb_text (x ∷ xs) [] = false
eqb_text (x ∷ xs) (y ∷ ys) = x == y && eqb_text xs ys

-- `s.startswith(t)`
abbrev pub starts_with : Text → Text → Bool
starts_with s [] = true
starts_with [] (y ∷ ys) = false
starts_with (x ∷ xs) (y ∷ ys) = x == y && starts_with xs ys

-- What is left of `s` behind as many code points as `t` has.
abbrev pub drop_as : Text → Text → Text
drop_as s [] = s
drop_as [] (y ∷ ys) = []
drop_as (x ∷ xs) (y ∷ ys) = drop_as xs ys

-- `s.removeprefix(t)`
abbrev pub remove_prefix : Text → Text → Text
remove_prefix s t = if starts_with s t then drop_as s t else s

-- `str.isspace` of one code point, which is what `str.strip()` removes.
unfoldable pub is_space : ℕ → Bool
is_space c =
    leb 9 c && leb c 13
    || leb 28 c && leb c 32
    || c == 133
    || c == 160
    || c == 5760
    || leb 8192 c && leb c 8202
    || c == 8232
    || c == 8233
    || c == 8239
    || c == 8287
    || c == 12288

unfoldable pub lstrip : Text → Text
lstrip [] = []
lstrip (c ∷ s) = let rest = lstrip s in elim (is_space c) [ true ↦ rest | false ↦ c ∷ s ]

-- One code point in front of a text with no blank end.
unfoldable pub push : ℕ → Text → Text
push c [] = if is_space c then [] else c ∷ []
push c (d ∷ r) = c ∷ d ∷ r

-- A blank end is dropped from the inside out.
unfoldable pub rstrip : Text → Text
unfolding push
rstrip [] = []
rstrip (c ∷ s) = push c (rstrip s)

-- `s.strip()`
unfoldable pub strip : Text → Text
unfolding lstrip rstrip
strip s = rstrip (lstrip s)

-- `s.lower()`, as far as a comparison with ASCII texts sees it: the Kelvin sign and the I with a dot
-- are the only code points outside of ASCII whose lower case has an ASCII one, and the lower case of any
-- other is left as the code point itself.
unfoldable pub lower : Text → Text
lower [] = []
lower (c ∷ s) =
    let rest = lower s in
    if leb 65 c && leb c 90
    then (c + 32) ∷ rest
    else if c == 304
    then 105 ∷ 775 ∷ rest
    else if c == 8490
    then 107 ∷ rest
    else c ∷ rest

-- `s in texts`
abbrev pub text_in : Text → List Text → Bool
text_in s [] = false
text_in s (t ∷ ts) = eqb_text s t || text_in s ts
