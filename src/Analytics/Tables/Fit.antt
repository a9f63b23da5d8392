-- ===== src/Analytics/Tables/Fit.antt =====
-- The rows of backend/services/analytics/event_models.py in the tables of
-- backend/scripts/create_clickhouse_tables.py.
use ansuman_gpu_inference_se.Prelude.{
  ℤ, pos, negsuc, String, Bool, true, false, ◌&&◌, Option, none, some, List, [], ◌∷◌, lookup, ltb,
  ◌=?◌, if◌then◌else◌,
}
use ansuman_gpu_inference_se.Analytics.Events.{
  AnalyticsEvent, AnalyticsTable, usage_event, inference_event, usage_events, inference_events,
  Cell, time_cell, text_cell, number_cell, maybe_number, maybe_text,
}
use ansuman_gpu_inference_se.Analytics.Tables.{
  ColumnType, date_time64, string, low_cardinality_string, uint32, nullable_uint32, nullable_string,
  Statement, create_database, create_table, create_distributed,
}

-- A number fits into 32 bits without a sign.
unfoldable pub is_uint32 : ℤ → Bool
is_uint32 (pos n) = ltb n 4294967296
is_uint32 (negsuc n) = false

abbrev pub is_maybe_uint32 : Option ℤ → Bool
is_maybe_uint32 none = true
is_maybe_uint32 (some n) = is_uint32 n

-- A column of this type stores the value.
abbrev stores : ColumnType → Cell → Bool
stores date_time64 (time_cell t) = true
stores string (text_cell s) = true
stores low_cardinality_string (text_cell s) = true
stores uint32 (number_cell n) = is_uint32 n
stores nullable_uint32 (maybe_number n) = is_maybe_uint32 n
stores nullable_string (maybe_text s) = true
stores _ _ = false

-- What the statements say of the columns of a table.
unfoldable pub local_columns : String → List Statement → List (String × ColumnType)
local_columns name [] = []
local_columns name (create_database d ∷ statements) = local_columns name statements
local_columns name (create_table n columns o ∷ statements) =
    let rest = local_columns name statements in if n =? name then columns else rest
local_columns name (create_distributed n like c d l k ∷ statements) = local_columns name statements

unfoldable pub columns_from : List Statement → String → List Statement → List (String × ColumnType)
columns_from all name [] = []
columns_from all name (create_database d ∷ statements) = columns_from all name statements
columns_from all name (create_table n columns o ∷ statements) = columns_from all name statements
columns_from all name (create_distributed n like c d l k ∷ statements) =
    let rest = columns_from all name statements in
    if n =? name then local_columns like all else rest

-- The columns of a distributed table, which are those of the table that it is made like.
abbrev pub declared : AnalyticsTable → List Statement → List (String × ColumnType)
declared usage_events ddl = columns_from ddl "inference_analytics.usage_events" ddl
declared inference_events ddl = columns_from ddl "inference_analytics.inference_events" ddl

abbrev stores_in : Option ColumnType → Cell → Bool
stores_in none cell = false
stores_in (some t) cell = stores t cell

-- An insertion of a row under these names: each is a column of the table that stores the value, and
-- no value is left.
unfoldable pub takes_row : List (String × ColumnType) → List String → List Cell → Bool
takes_row columns [] [] = true
takes_row columns (name ∷ names) (cell ∷ cells) =
    let rest = takes_row columns names cells in stores_in (lookup name columns) cell && rest
takes_row columns _ _ = false

abbrev pub numbers_fit : AnalyticsEvent → Bool
numbers_fit (usage_event e) =
    is_uint32 e.prompt_tokens
    && (is_uint32 e.completion_tokens && (is_uint32 e.total_tokens && is_maybe_uint32 e.latency_ms))
numbers_fit (inference_event e) = is_maybe_uint32 e.latency_ms
