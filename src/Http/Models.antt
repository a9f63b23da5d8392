-- ===== src/Http/Models.antt =====
-- backend/api/routes/models.py and backend/schemas/model.py: the list of the configured models.
use ansuman_gpu_inference_se.Prelude.{String, ◌≡◌, refl, ap, ◌∙◌, List, [], ◌∷◌, map}
use ansuman_gpu_inference_se.Text.{Text}
use ansuman_gpu_inference_se.Config.{Settings, model_ids}
use ansuman_gpu_inference_se.Config.Models.{IsModelId, join_commas, model_ids-join}
use ansuman_gpu_inference_se.Prelude.{All}

-- `ModelObject`
pub record ModelObject : Type 0 where
  pub id : Text
  pub object : String
  pub owned_by : String

-- `ModelListResponse`; its field `data` is `models`.
pub record ModelListResponse : Type 0 where
  pub object : String
  pub models : List ModelObject

abbrev pub model_object : Text → ModelObject
model_object id = record { id = id; object = "model"; owned_by = "yral" }

unfoldable pub model_list_response : List Text → ModelListResponse
model_list_response ids = record { object = "list"; models = map model_object ids }

-- `list_models`
unfoldable pub list_models : {Float : Type 0} → Settings Float → ModelListResponse
unfolding model_list_response
list_models settings = model_list_response (model_ids settings)

abbrev pub listed_ids : List ModelObject → List Text
listed_ids [] = []
listed_ids (m ∷ ms) = m.id ∷ listed_ids ms

listed_ids-map : (ids : List Text) → listed_ids (map model_object ids) ≡ ids
listed_ids-map [] = refl
listed_ids-map (id ∷ ids) = ap (λ l. id ∷ l) (listed_ids-map ids)

-- With model ids joined by commas in MODEL_IDS, none of them blank or with a blank end or a comma,
-- the route lists these ids in order.
pub list_models_lem :
    {Float : Type 0} (settings : Settings Float) (ids : List Text)
    → All IsModelId ids
    → settings.model_ids_raw ≡ join_commas ids
    → listed_ids (list_models settings).models ≡ ids
unfolding list_models model_list_response
list_models_lem settings ids h e =
    listed_ids-map (model_ids settings) ∙ model_ids-join settings ids h e
