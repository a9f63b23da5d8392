-- ===== src/Schema/Migration.antt =====
-- alembic/versions/20260529_0001_phase6_schema.py: the tables of the database, and the two directions
-- of the migration.
use ansuman_gpu_inference_se.Prelude.{String, Bool, true, false, List, [], ◌∷◌}
use ansuman_gpu_inference_se.Schema.{
  ColumnType, string, date_time, integer, boolean, json, Column, OnDelete, cascade, restrict,
  ForeignKey, TableDef, Create, create_table, create_index, Drop, drop_table, drop_index,
}

abbrev column : String → ColumnType → Bool → Column
column name type nullable = record { name = name; type = type; nullable = nullable }

abbrev refers : String → String → OnDelete → ForeignKey
refers column table on_delete = record {
  column = column;
  table = table;
  target = "id";
  on_delete = on_delete;
}

abbrev index : String → String → String → Bool → Create
index name table column unique =
    create_index (record { name = name; table = table; column = column; unique = unique })

abbrev pub users : TableDef
users = record {
  name = "users";
  columns =
      column "id" (string 36) false
      ∷ column "email" (string 320) false
      ∷ column "name" (string 255) true
      ∷ column "created_at" date_time false
      ∷ column "updated_at" date_time false
      ∷ [];
  foreign_keys = [];
  primary_key = "id";
}

abbrev pub projects : TableDef
projects = record {
  name = "projects";
  columns =
      column "id" (string 36) false
      ∷ column "user_id" (string 36) false
      ∷ column "name" (string 255) false
      ∷ column "created_at" date_time false
      ∷ column "updated_at" date_time false
      ∷ [];
  foreign_keys = refers "user_id" "users" cascade ∷ [];
  primary_key = "id";
}

abbrev pub api_keys : TableDef
api_keys = record {
  name = "api_keys";
  columns =
      column "id" (string 36) false
      ∷ column "user_id" (string 36) false
      ∷ column "project_id" (string 36) false
      ∷ column "name" (string 255) false
      ∷ column "key_hash" (string 64) false
      ∷ column "key_prefix" (string 32) false
      ∷ column "allowed_models" json true
      ∷ column "expires_at" date_time true
      ∷ column "revoked_at" date_time true
      ∷ column "created_at" date_time false
      ∷ column "last_used_at" date_time true
      ∷ [];
  foreign_keys = refers "project_id" "projects" cascade ∷ refers "user_id" "users" cascade ∷ [];
  primary_key = "id";
}

abbrev pub quota_policies : TableDef
quota_policies = record {
  name = "quota_policies";
  columns =
      column "id" (string 36) false
      ∷ column "project_id" (string 36) false
      ∷ column "requests_per_minute" integer false
      ∷ column "tokens_per_minute" integer false
      ∷ column "concurrent_requests" integer false
      ∷ column "daily_token_limit" integer true
      ∷ column "created_at" date_time false
      ∷ column "updated_at" date_time false
      ∷ [];
  foreign_keys = refers "project_id" "projects" cascade ∷ [];
  primary_key = "id";
}

abbrev pub batch_jobs : TableDef
batch_jobs = record {
  name = "batch_jobs";
  columns =
      column "id" (string 36) false
      ∷ column "user_id" (string 36) false
      ∷ column "project_id" (string 36) false
      ∷ column "api_key_id" (string 36) false
      ∷ column "model" (string 255) false
      ∷ column "status" (string 64) false
      ∷ column "input_uri" (string 2048) true
      ∷ column "output_uri" (string 2048) true
      ∷ column "error_code" (string 128) true
      ∷ column "error_message" (string 1024) true
      ∷ column "request_count" integer false
      ∷ column "completed_count" integer false
      ∷ column "failed_count" integer false
      ∷ column "metadata_json" json true
      ∷ column "created_at" date_time false
      ∷ column "updated_at" date_time false
      ∷ [];
  foreign_keys =
      refers "api_key_id" "api_keys" restrict
      ∷ refers "project_id" "projects" restrict
      ∷ refers "user_id" "users" restrict
      ∷ [];
  primary_key = "id";
}

abbrev pub request_audit_records : TableDef
request_audit_records = record {
  name = "request_audit_records";
  columns =
      column "id" (string 36) false
      ∷ column "request_id" (string 80) false
      ∷ column "user_id" (string 36) false
      ∷ column "project_id" (string 36) false
      ∷ column "api_key_id" (string 36) false
      ∷ column "model" (string 255) false
      ∷ column "status" (string 64) false
      ∷ column "prompt_tokens" integer true
      ∷ column "completion_tokens" integer true
      ∷ column "total_tokens" integer true
      ∷ column "latency_ms" integer true
      ∷ column "error_code" (string 128) true
      ∷ column "prompt_hash" (string 64) true
      ∷ column "created_at" date_time false
      ∷ column "completed_at" date_time true
      ∷ [];
  foreign_keys =
      refers "api_key_id" "api_keys" restrict
      ∷ refers "project_id" "projects" restrict
      ∷ refers "user_id" "users" restrict
      ∷ [];
  primary_key = "id";
}

abbrev pub webhook_configs : TableDef
webhook_configs = record {
  name = "webhook_configs";
  columns =
      column "id" (string 36) false
      ∷ column "project_id" (string 36) false
      ∷ column "url" (string 2048) false
      ∷ column "secret_hash" (string 64) true
      ∷ column "enabled" boolean false
      ∷ column "created_at" date_time false
      ∷ column "updated_at" date_time false
      ∷ [];
  foreign_keys = refers "project_id" "projects" cascade ∷ [];
  primary_key = "id";
}

abbrev pub upgrade : List Create
upgrade =
    create_table users
    ∷ index "ix_users_email" "users" "email" true
    ∷ create_table projects
    ∷ index "ix_projects_user_id" "projects" "user_id" false
    ∷ create_table api_keys
    ∷ index "ix_api_keys_key_hash" "api_keys" "key_hash" true
    ∷ index "ix_api_keys_key_prefix" "api_keys" "key_prefix" false
    ∷ index "ix_api_keys_project_id" "api_keys" "project_id" false
    ∷ index "ix_api_keys_user_id" "api_keys" "user_id" false
    ∷ create_table quota_policies
    ∷ index "ix_quota_policies_project_id" "quota_policies" "project_id" true
    ∷ create_table batch_jobs
    ∷ index "ix_batch_jobs_api_key_id" "batch_jobs" "api_key_id" false
    ∷ index "ix_batch_jobs_model" "batch_jobs" "model" false
    ∷ index "ix_batch_jobs_project_id" "batch_jobs" "project_id" false
    ∷ index "ix_batch_jobs_status" "batch_jobs" "status" false
    ∷ index "ix_batch_jobs_user_id" "batch_jobs" "user_id" false
    ∷ create_table request_audit_records
    ∷ index "ix_request_audit_records_api_key_id" "request_audit_records" "api_key_id" false
    ∷ index "ix_request_audit_records_model" "request_audit_records" "model" false
    ∷ index "ix_request_audit_records_project_id" "request_audit_records" "project_id" false
    ∷ index "ix_request_audit_records_request_id" "request_audit_records" "request_id" true
    ∷ index "ix_request_audit_records_status" "request_audit_records" "status" false
    ∷ index "ix_request_audit_records_user_id" "request_audit_records" "user_id" false
    ∷ create_table webhook_configs
    ∷ index "ix_webhook_configs_project_id" "webhook_configs" "project_id" false
    ∷ []

abbrev pub downgrade : List Drop
downgrade =
    drop_index "ix_webhook_configs_project_id" "webhook_configs"
    ∷ drop_table "webhook_configs"
    ∷ drop_index "ix_request_audit_records_user_id" "request_audit_records"
    ∷ drop_index "ix_request_audit_records_status" "request_audit_records"
    ∷ drop_index "ix_request_audit_records_request_id" "request_audit_records"
    ∷ drop_index "ix_request_audit_records_project_id" "request_audit_records"
    ∷ drop_index "ix_request_audit_records_model" "request_audit_records"
    ∷ drop_index "ix_request_audit_records_api_key_id" "request_audit_records"
    ∷ drop_table "request_audit_records"
    ∷ drop_index "ix_batch_jobs_user_id" "batch_jobs"
    ∷ drop_index "ix_batch_jobs_status" "batch_jobs"
    ∷ drop_index "ix_batch_jobs_project_id" "batch_jobs"
    ∷ drop_index "ix_batch_jobs_model" "batch_jobs"
    ∷ drop_index "ix_batch_jobs_api_key_id" "batch_jobs"
    ∷ drop_table "batch_jobs"
    ∷ drop_index "ix_quota_policies_project_id" "quota_policies"
    ∷ drop_table "quota_policies"
    ∷ drop_index "ix_api_keys_user_id" "api_keys"
    ∷ drop_index "ix_api_keys_project_id" "api_keys"
    ∷ drop_index "ix_api_keys_key_prefix" "api_keys"
    ∷ drop_index "ix_api_keys_key_hash" "api_keys"
    ∷ drop_table "api_keys"
    ∷ drop_index "ix_projects_user_id" "projects"
    ∷ drop_table "projects"
    ∷ drop_index "ix_users_email" "users"
    ∷ drop_table "users"
    ∷ []
