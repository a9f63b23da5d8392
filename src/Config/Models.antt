-- ===== src/Config/Models.antt =====
-- The model ids that backend/core/config.py reads out of MODEL_IDS.
use ansuman_gpu_inference_se.Prelude.{
  Bool, true, false, ◌≡◌, refl, ap, ◌∙◌, List, [], ◌∷◌, ◌++◌, All, arith, ◌==◌,
}
use ansuman_gpu_inference_se.Text.{Text, strip}
use ansuman_gpu_inference_se.Config.{
  Settings, split_commas, unless_blank, stripped_parts, model_ids,
}

-- `",".join(ids)`
unfoldable pub join_commas : List Text → Text
join_commas [] = []
join_commas (id ∷ []) = id
join_commas (id ∷ next ∷ ids) = id ++ b',' ∷ join_commas (next ∷ ids)

abbrev is_blank : Text → Bool
is_blank [] = true
is_blank (c ∷ s) = false

abbrev pub HasNoComma : Text → Type 0
HasNoComma = All (λ c. (c == b',') ≡ false)

-- What a deployment can name a model: no blank text, no blank ends, and no comma.
pub record IsModelId (id : Text) : Type 0 where
  pub written : is_blank id ≡ false
  pub stripped : strip id ≡ id
  pub whole : HasNoComma id

-- A text with no comma in front of a comma, or at the end, is one part.
split_commas-whole : (id : Text) → HasNoComma id → split_commas id ≡ id ∷ []
unfolding split_commas
split_commas-whole [] h = refl
split_commas-whole (c ∷ s) h = rw (h.0, split_commas-whole s h.1) refl

split_commas-part :
    (id rest : Text) → HasNoComma id → split_commas (id ++ b',' ∷ rest) ≡ id ∷ split_commas rest
unfolding split_commas
split_commas-part [] rest h = refl
split_commas-part (c ∷ s) rest h = rw (h.0, split_commas-part s rest h.1) refl

split_commas-join :
    (id : Text) (ids : List Text)
    → All IsModelId (id ∷ ids)
    → split_commas (join_commas (id ∷ ids)) ≡ id ∷ ids
unfolding join_commas
split_commas-join id [] h = split_commas-whole id h.0.whole
split_commas-join id (next ∷ ids) h =
    split_commas-part id (join_commas (next ∷ ids)) h.0.whole
    ∙ ap (λ l. id ∷ l) (split_commas-join next ids h.1)

stripped_part :
    (id : Text) (ids : List Text)
    → IsModelId id
    → stripped_parts (id ∷ ids) ≡ id ∷ stripped_parts ids
unfolding stripped_parts
stripped_part [] ids h = absurd (ground (arith, h.written))
stripped_part (c ∷ s) ids h = ap (λ t. unless_blank t (stripped_parts ids)) h.stripped

stripped_parts_lem : (ids : List Text) → All IsModelId ids → stripped_parts ids ≡ ids
stripped_parts_lem [] h = unfold stripped_parts in refl
stripped_parts_lem (id ∷ ids) h =
    stripped_part id ids h.0 ∙ ap (λ l. id ∷ l) (stripped_parts_lem ids h.1)

-- Model ids that were joined by commas are read back as they are.
pub model_ids-join :
    {Float : Type 0} (settings : Settings Float) (ids : List Text)
    → All IsModelId ids
    → settings.model_ids_raw ≡ join_commas ids
    → model_ids settings ≡ ids
unfolding model_ids
model_ids-join settings [] h e = rw e (unfold join_commas split_commas stripped_parts strip in refl)
model_ids-join settings (id ∷ ids) h e =
    ap (λ raw. stripped_parts (split_commas raw)) e
    ∙ ap stripped_parts (split_commas-join id ids h)
    ∙ stripped_parts_lem (id ∷ ids) h
