-- ===== src/Audit/Lifecycle.antt =====
-- backend/services/inference/request_lifecycle.py: what is recorded of a request.
use ansuman_gpu_inference_se.Prelude.{ℤ, String, Option, none, some, List, [], ◌∷◌, ◌++◌}
use ansuman_gpu_inference_se.Text.{Text}
use ansuman_gpu_inference_se.Io.{Io}
use ansuman_gpu_inference_se.Auth.Keys.{AuthContext}
use ansuman_gpu_inference_se.Tokens.Estimate.{ChatMessage}
use ansuman_gpu_inference_se.Tokens.Usage.{UsageRecord}

pub record AuditStart : Type 0 where
  pub request_id : String
  pub user_id : String
  pub project_id : String
  pub api_key_id : String
  pub model : String
  pub prompt_hash : Option String

pub record AuditFinal : Type 0 where
  pub record_id : String
  pub status : String
  pub prompt_tokens : Option ℤ
  pub completion_tokens : Option ℤ
  pub total_tokens : Option ℤ
  pub latency_ms : Option ℤ
  pub error_code : Option String

-- What is fed to SHA-256, as code points: each role and each content ends with a zero.
unfoldable pub hash_input : List ChatMessage → Text
hash_input [] = []
hash_input (m ∷ ms) = m.role ++ 0 ∷ m.content ++ 0 ∷ hash_input ms

-- SHA-256 and its hexadecimal digits, over the UTF-8 of the code points, are a parameter.
module _ (sha256_hex : Text → String) where
  unfoldable pub hash_prompt : List ChatMessage → Option String
  hash_prompt [] = none
  hash_prompt (m ∷ ms) = some (sha256_hex (hash_input (m ∷ ms)))

  unfoldable pub build_audit_start : String → AuthContext → String → List ChatMessage → AuditStart
  build_audit_start request_id auth_context model messages = record {
    request_id = request_id;
    user_id = auth_context.user_id;
    project_id = auth_context.project_id;
    api_key_id = auth_context.api_key_id;
    model = model;
    prompt_hash = hash_prompt messages;
  }

unfoldable pub build_audit_final : String → UsageRecord → Option ℤ → Option String → AuditFinal
build_audit_final record_id usage latency_ms error_code = record {
  record_id = record_id;
  status = usage.status;
  prompt_tokens = some usage.prompt_tokens;
  completion_tokens = some usage.completion_tokens;
  total_tokens = some usage.total_tokens;
  latency_ms = latency_ms;
  error_code = error_code;
}

-- The protocol `RequestAuditController`.
pub record RequestAudit (W : Type 0) : Type 0 where
  pub start : AuditStart → Io W String
  pub finalize : AuditFinal → Io W (Unit {0})
