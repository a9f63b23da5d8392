-- ===== src/Json.antt =====
-- JSON values as Python holds them after `json.loads`, and the built-in `int` on them.
pub mod Dict
use ansuman_gpu_inference_se.Prelude.{
  ℕ, ◌+◌, ◌-◌, ◌*◌, ◌/◌, ◌^◌, ℤ, pos, pos_part, neg_part, ◌-ℤ◌, sub_ℕ, eqb_ℤ, String, Bool, true,
  false, ◌&&◌, not, Option, none, some, [], ◌∷◌, leb, ◌==◌, ◌=?◌, if◌then◌else◌,
}
use ansuman_gpu_inference_se.Text.{Text, strip}
use ansuman_gpu_inference_se.Io.{error, Result, ok, raised}

-- A finite float is `float n k`, which stands for n / 2 ^ k: every double has this form.
mutual
  pub data Json : Type 0 where
    null : Json
    bool : Bool → Json
    int : ℤ → Json
    float : ℤ → ℕ → Json
    nonfinite : Json
    str : Text → Json
    arr : Items → Json
    obj : Fields → Json

  pub data Items : Type 0 where
    nil : Items
    cons : Json → Items → Items

  pub data Fields : Type 0 where
    end : Fields
    field : String → Json → Fields → Fields

-- `d.get(k)`, where `none` says that the key is missing.
unfoldable pub get : String → Fields → Option Json
get k end = none
get k (field j v fs) = if j =? k then some v else get k fs

-- `d[k] = v`
unfoldable pub put : String → Json → Fields → Fields
put k v end = field k v end
put k v (field j w fs) = if j =? k then field j v fs else field j w (put k v fs)

-- `bool(x)`
unfoldable pub truthy : Json → Bool
truthy null = false
truthy (bool b) = b
truthy (int n) = not (eqb_ℤ n (pos 0))
truthy (float n k) = not (eqb_ℤ n (pos 0))
truthy nonfinite = true
truthy (str []) = false
truthy (str (c ∷ s)) = true
truthy (arr nil) = false
truthy (arr (cons x xs)) = true
truthy (obj end) = false
truthy (obj (field k v fs)) = true

-- Decimal digits, single underscores between them; `after` says that a digit stands in front.
unfoldable pub digits : Bool → ℕ → Text → Option ℕ
digits after acc [] = if after then some acc else none
digits after acc (c ∷ s) =
    let is_digit = leb b'0' c && leb c b'9' in
    let value = if is_digit then acc * 10 + (c - b'0') else acc in
    let rest = digits is_digit value s in
    elim (is_digit) [ true ↦ rest | false ↦ if c == b'_' && after then rest else none ]

signed : Text → Option ℤ
unfolding digits
signed [] = none
signed (c ∷ s) =
    if c == b'-'
    then elim (digits false 0 s) [ none ↦ none | some n ↦ some (pos 0 -ℤ pos n) ]
    else elim (digits false 0 (if c == b'+' then s else c ∷ s)) [
      | none ↦ none
      | some n ↦ some (pos n)
    ]

-- `int(s)` of a text of ASCII digits.
unfoldable pub int_of_text : Text → Option ℤ
unfolding signed strip
int_of_text s = signed (strip s)

-- `int(x)`; a float is cut off towards zero.
unfoldable pub to_int : Json → Result ℤ
unfolding int_of_text
to_int (bool true) = ok (pos 1)
to_int (bool false) = ok (pos 0)
to_int (int n) = ok n
to_int (float n k) = ok (sub_ℕ (pos_part n / 2 ^ k) (neg_part n / 2 ^ k))
to_int nonfinite = raised (error "cannot convert float to integer")
to_int (str s) = elim (int_of_text s) [
  | none ↦ raised (error "invalid literal for int() with base 10")
  | some n ↦ ok n
]
to_int _ = raised (error "int() argument must be a string, a bytes-like object or a real number")

-- `int(x or 0)`
unfoldable pub to_int_or_zero : Json → Result ℤ
unfolding truthy to_int
to_int_or_zero x = if truthy x then to_int x else ok (pos 0)
