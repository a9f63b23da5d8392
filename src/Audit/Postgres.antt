-- ===== src/Audit/Postgres.antt =====
-- `RequestAuditService` of backend/services/inference/usage_finalizer.py over
-- backend/repositories/request_audit_repository.py. The database is a parameter.
use ansuman_gpu_inference_se.Prelude.{ℕ, ℤ, String, ◌≡◌, refl, Option, none, some, arith}
use ansuman_gpu_inference_se.Io.{error, ok, Io, pure, raise, ◌>>=◌, ◌>>◌}
use ansuman_gpu_inference_se.Session.{Sessions, Table, returned, session_scope}
use ansuman_gpu_inference_se.Audit.Lifecycle.{AuditStart, AuditFinal}

-- The row of backend/models/request_audit.py.
pub record RequestAuditRecord : Type 0 where
  pub id : String
  pub request_id : String
  pub user_id : String
  pub project_id : String
  pub api_key_id : String
  pub model : String
  pub status : String
  pub prompt_tokens : Option ℤ
  pub completion_tokens : Option ℤ
  pub total_tokens : Option ℤ
  pub latency_ms : Option ℤ
  pub error_code : Option String
  pub prompt_hash : Option String
  pub completed_at : Option ℕ

-- `audit_record_from_start`, with the id that the column's default draws.
unfoldable pub audit_record_from_start : String → AuditStart → RequestAuditRecord
audit_record_from_start id start = record {
  id = id;
  request_id = start.request_id;
  user_id = start.user_id;
  project_id = start.project_id;
  api_key_id = start.api_key_id;
  model = start.model;
  status = "accepted";
  prompt_tokens = none;
  completion_tokens = none;
  total_tokens = none;
  latency_ms = none;
  error_code = none;
  prompt_hash = start.prompt_hash;
  completed_at = none;
}

module _ {W T : Type 0} (sessions : Sessions W T) (records : Table T RequestAuditRecord)
    (uuid4 : T → String) (utc_now : ℕ) where
  -- `RequestAuditRepository.create`
  abbrev pub create_record : AuditStart → Io T RequestAuditRecord
  create_record audit t =
      let row = audit_record_from_start (uuid4 t) audit in (ok row, records.save row.id row t)

  abbrev finalized : AuditFinal → RequestAuditRecord → RequestAuditRecord
  finalized final row = record row {
    status = final.status;
    prompt_tokens = final.prompt_tokens;
    completion_tokens = final.completion_tokens;
    total_tokens = final.total_tokens;
    latency_ms = final.latency_ms;
    error_code = final.error_code;
    completed_at = some utc_now;
  }

  -- `RequestAuditRepository.finalize` once the row has been read
  abbrev write_final : AuditFinal → Option RequestAuditRecord → Io T (Unit {0})
  write_final final none t = (ok tt, t)
  write_final final (some row) t = (ok tt, records.save row.id (finalized final row) t)

  -- `RequestAuditRepository.finalize`
  unfoldable pub finalize_record : AuditFinal → Io T (Unit {0})
  finalize_record final t = write_final final (records.find t final.record_id) t

  abbrev or_failed : Option String → Io W String
  or_failed none = raise (error "request audit start failed")
  or_failed (some id) = pure id

  -- `RequestAuditService.start`
  unfoldable pub start : AuditStart → Io W String
  start audit = do
    id ← session_scope sessions (do row ← create_record audit; pure (returned row.id))
    or_failed id

  -- `RequestAuditService.finalize`
  unfoldable pub finalize : AuditFinal → Io W (Unit {0})
  finalize final = do session_scope sessions (finalize_record final >> pure (returned tt)); pure tt

  -- A request is started with the id of its row and finalized without an error, and neither is
  -- committed: no audit record reaches the database.
  pub audit_unchanged :
      (audit : AuditStart) (final : AuditFinal) (w : W)
      → (start audit w ≡ (ok (uuid4 (sessions.begin w)), w)) × (finalize final w ≡ (ok tt, w))
  unfolding start finalize finalize_record session_scope audit_record_from_start
  audit_unchanged audit final w = (refl, ground arith)
