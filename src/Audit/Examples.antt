-- ===== src/Audit/Examples.antt =====
-- Audits in memory and in a database of one row, and the theorems at them.
use ansuman_gpu_inference_se.Prelude.{pos, ◌≡◌, refl, none, some, [], ◌=?◌, if◌then◌else◌}
use ansuman_gpu_inference_se.Io.{ok}
use ansuman_gpu_inference_se.Session.{Sessions, Table}
use ansuman_gpu_inference_se.Text.Decimal.{str_of_ℕ}
use ansuman_gpu_inference_se.Audit.Lifecycle.{AuditStart, AuditFinal}
use ansuman_gpu_inference_se.Audit.Postgres
use ansuman_gpu_inference_se.Audit.Postgres.{
  RequestAuditRecord, audit_record_from_start, audit_unchanged,
}
use ansuman_gpu_inference_se.Audit.Memory.{
  AreNumbered, recorded, appended, start, finalize, audit_id, finalize-start,
}

abbrev audit : AuditStart
audit = record {
  request_id = "r";
  user_id = "u";
  project_id = "p";
  api_key_id = "k";
  model = "llama";
  prompt_hash = none;
}

abbrev final : AuditFinal
final = record {
  record_id = "audit_1";
  status = "completed";
  prompt_tokens = some (pos 3);
  completion_tokens = some (pos 4);
  total_tokens = some (pos 7);
  latency_ms = some (pos 12);
  error_code = none;
}

finalize-start_example :
    ((finalize final (start audit []).1).1 ≡ appended [] (recorded audit (some final) "audit_1"))
    × AreNumbered 1 (finalize final (start audit []).1).1
unfolding start audit_id str_of_ℕ
finalize-start_example = finalize-start audit final [] tt refl

abbrev sessions : Sessions RequestAuditRecord RequestAuditRecord
sessions = record { begin = λ w. w; commit = λ t w. (ok tt, t) }

abbrev records : Table RequestAuditRecord RequestAuditRecord
records = record { find = λ t k. if t.id =? k then some t else none; save = λ k r t. r }

abbrev row : RequestAuditRecord
row = audit_record_from_start "audit_1" audit

audit_unchanged_example :
    (Postgres.start sessions records (λ t. "audit_2") 5 audit row ≡ (ok "audit_2", row))
    × (Postgres.finalize sessions records (λ t. "audit_2") 5 final row ≡ (ok tt, row))
audit_unchanged_example = audit_unchanged sessions records (λ t. "audit_2") 5 audit final row
