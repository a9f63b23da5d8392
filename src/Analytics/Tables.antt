-- ===== src/Analytics/Tables.antt =====
-- backend/scripts/create_clickhouse_tables.py: the tables that the flusher writes to.
pub mod Fit
use Prim.Native.String.{◌++◌}
use ansuman_gpu_inference_se.Prelude.{String, List, [], ◌∷◌}
use ansuman_gpu_inference_se.Io.{Io, pure, ◌>>◌}

-- The types of columns; every `LowCardinality` of the script is one of strings.
pub data ColumnType : Type 0 where
  date_time64 string low_cardinality_string uint32 nullable_uint32 nullable_string : ColumnType

-- A statement of the script, without the engine and the partition that all local tables share.
pub data Statement : Type 0 where
  create_database : String → Statement
  create_table :
      (name : String) (columns : List (String × ColumnType)) (order_by : List String) → Statement
  create_distributed : (name like cluster database local sharding_column : String) → Statement

abbrev pub usage_events_local : List (String × ColumnType)
usage_events_local =
    ("event_time", date_time64)
    ∷ ("request_id", string)
    ∷ ("user_id", string)
    ∷ ("project_id", string)
    ∷ ("api_key_id", string)
    ∷ ("model", string)
    ∷ ("status", low_cardinality_string)
    ∷ ("prompt_tokens", uint32)
    ∷ ("completion_tokens", uint32)
    ∷ ("total_tokens", uint32)
    ∷ ("latency_ms", nullable_uint32)
    ∷ ("error_code", nullable_string)
    ∷ []

abbrev pub inference_events_local : List (String × ColumnType)
inference_events_local =
    ("event_time", date_time64)
    ∷ ("request_id", string)
    ∷ ("event_type", low_cardinality_string)
    ∷ ("user_id", string)
    ∷ ("project_id", string)
    ∷ ("api_key_id", string)
    ∷ ("model", string)
    ∷ ("status", low_cardinality_string)
    ∷ ("latency_ms", nullable_uint32)
    ∷ ("error_code", nullable_string)
    ∷ []

abbrev order_by : List String
order_by = "project_id" ∷ "api_key_id" ∷ "event_time" ∷ []

unfoldable pub clickhouse_ddl : String → List Statement
clickhouse_ddl cluster =
    create_database "inference_analytics"
    ∷ create_table "inference_analytics.usage_events_local" usage_events_local order_by
    ∷ create_distributed "inference_analytics.usage_events" "inference_analytics.usage_events_local"
        cluster "inference_analytics" "usage_events_local" "request_id"
    ∷ create_table "inference_analytics.inference_events_local" inference_events_local order_by
    ∷ create_distributed "inference_analytics.inference_events"
        "inference_analytics.inference_events_local" cluster "inference_analytics"
        "inference_events_local" "request_id"
    ∷ []

-- The loop of `main`; `command` is the client's.
unfoldable pub run_all :
    {W : Type 0} → (Statement → Io W (Unit {0})) → List Statement → Io W (Unit {0})
run_all command [] = pure tt
run_all command (s ∷ statements) = command s >> run_all command statements
