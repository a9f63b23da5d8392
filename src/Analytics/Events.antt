-- ===== src/Analytics/Events.antt =====
-- backend/services/analytics/event_models.py.
use ansuman_gpu_inference_se.Prelude.{ℕ, ℤ, String, Bool, Option, List, [], ◌∷◌, length, ◌≡◌, refl}

pub record UsageEvent : Type 0 where
  pub event_time : ℕ
  pub request_id : String
  pub user_id : String
  pub project_id : String
  pub api_key_id : String
  pub model : String
  pub status : String
  pub prompt_tokens : ℤ
  pub completion_tokens : ℤ
  pub total_tokens : ℤ
  pub latency_ms : Option ℤ
  pub error_code : Option String
  pub critical : Bool

pub record InferenceEvent : Type 0 where
  pub event_time : ℕ
  pub request_id : String
  pub event_type : String
  pub user_id : String
  pub project_id : String
  pub api_key_id : String
  pub model : String
  pub status : String
  pub latency_ms : Option ℤ
  pub error_code : Option String
  pub critical : Bool

pub data AnalyticsEvent : Type 0 where
  usage_event : UsageEvent → AnalyticsEvent
  inference_event : InferenceEvent → AnalyticsEvent

abbrev pub is_critical : AnalyticsEvent → Bool
is_critical (usage_event e) = e.critical
is_critical (inference_event e) = e.critical

-- The literals `"usage_events"` and `"inference_events"`.
pub data AnalyticsTable : Type 0 where
  usage_events inference_events : AnalyticsTable

abbrev pub table : AnalyticsEvent → AnalyticsTable
table (usage_event e) = usage_events
table (inference_event e) = inference_events

-- One value of a row.
pub data Cell : Type 0 where
  time_cell : ℕ → Cell
  text_cell : String → Cell
  number_cell : ℤ → Cell
  maybe_number : Option ℤ → Cell
  maybe_text : Option String → Cell

abbrev usage_row : UsageEvent → List Cell
usage_row e =
    time_cell e.event_time
    ∷ text_cell e.request_id
    ∷ text_cell e.user_id
    ∷ text_cell e.project_id
    ∷ text_cell e.api_key_id
    ∷ text_cell e.model
    ∷ text_cell e.status
    ∷ number_cell e.prompt_tokens
    ∷ number_cell e.completion_tokens
    ∷ number_cell e.total_tokens
    ∷ maybe_number e.latency_ms
    ∷ maybe_text e.error_code
    ∷ []

abbrev inference_row : InferenceEvent → List Cell
inference_row e =
    time_cell e.event_time
    ∷ text_cell e.request_id
    ∷ text_cell e.event_type
    ∷ text_cell e.user_id
    ∷ text_cell e.project_id
    ∷ text_cell e.api_key_id
    ∷ text_cell e.model
    ∷ text_cell e.status
    ∷ maybe_number e.latency_ms
    ∷ maybe_text e.error_code
    ∷ []

abbrev pub to_row : AnalyticsEvent → List Cell
to_row (usage_event e) = usage_row e
to_row (inference_event e) = inference_row e

abbrev pub usage_event_columns : List String
usage_event_columns =
    "event_time" ∷ "request_id" ∷ "user_id" ∷ "project_id" ∷ "api_key_id" ∷ "model" ∷ "status"
    ∷ "prompt_tokens" ∷ "completion_tokens" ∷ "total_tokens" ∷ "latency_ms" ∷ "error_code" ∷ []

abbrev pub inference_event_columns : List String
inference_event_columns =
    "event_time" ∷ "request_id" ∷ "event_type" ∷ "user_id" ∷ "project_id" ∷ "api_key_id" ∷ "model"
    ∷ "status" ∷ "latency_ms" ∷ "error_code" ∷ []

unfoldable pub columns_for_table : AnalyticsTable → List String
columns_for_table usage_events = usage_event_columns
columns_for_table inference_events = inference_event_columns

-- A row has one value for each column of its table.
pub length-to_row : (e : AnalyticsEvent) → length (to_row e) ≡ length (columns_for_table (table e))
unfolding columns_for_table
length-to_row (usage_event e) = refl
length-to_row (inference_event e) = refl
