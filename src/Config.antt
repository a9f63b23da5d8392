-- ===== src/Config.antt =====
-- backend/core/config.py: the settings that are computed, and the fields that other parts read.
pub mod Models
use ansuman_gpu_inference_se.Prelude.{
  ℕ, ℤ, Bool, true, false, Option, none, some, List, [], ◌∷◌, map, ◌==◌, if◌then◌else◌,
}
use ansuman_gpu_inference_se.Text.{Text, strip}

-- The fields of `Settings` that these parts read; a double has the type `Float`.
pub record Settings (Float : Type 0) : Type 0 where
  pub vllm_host : Text
  pub vllm_port : ℤ
  pub vllm_model_path : Text
  pub vllm_served_model_name : Option Text
  pub vllm_tensor_parallel_size : ℤ
  pub vllm_max_model_len : ℤ
  pub vllm_gpu_memory_utilization : Float
  pub vllm_max_num_seqs : ℤ
  pub vllm_max_num_batched_tokens : ℤ
  pub model_ids_raw : Text

-- One code point in front of the parts of a text.
abbrev pub onto_first : ℕ → List Text → List Text
onto_first c [] = (c ∷ []) ∷ []
onto_first c (part ∷ parts) = (c ∷ part) ∷ parts

-- `s.split(",")`
unfoldable pub split_commas : Text → List Text
split_commas [] = [] ∷ []
split_commas (c ∷ s) =
    let parts = split_commas s in if c == b',' then [] ∷ parts else onto_first c parts

-- A part that is not blank, in front of the others.
abbrev pub unless_blank : Text → List Text → List Text
unless_blank [] parts = parts
unless_blank (c ∷ s) parts = (c ∷ s) ∷ parts

-- `model_id.strip() for model_id in ... if model_id.strip()`
unfoldable pub stripped_parts : List Text → List Text
unfolding strip
stripped_parts [] = []
stripped_parts (part ∷ parts) = unless_blank (strip part) (stripped_parts parts)

-- `Settings.model_ids`
unfoldable pub model_ids : {Float : Type 0} → Settings Float → List Text
unfolding split_commas stripped_parts
model_ids settings = stripped_parts (split_commas settings.model_ids_raw)

-- `self.model_ids[0]`, or the model path where there is none.
abbrev first_or : Text → List Text → Text
first_or path [] = path
first_or path (id ∷ ids) = id

-- `Settings.vllm_served_model`
unfoldable pub vllm_served_model : {Float : Type 0} → Settings Float → Text
unfolding model_ids
vllm_served_model settings = elim (settings.vllm_served_model_name) [
  | none ↦ first_or settings.vllm_model_path (model_ids settings)
  | some name ↦ elim name [
    | [] ↦ first_or settings.vllm_model_path (model_ids settings)
    | c ∷ s ↦ c ∷ s
  ]
]
