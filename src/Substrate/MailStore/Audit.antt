-- ===== src/Substrate/MailStore/Audit.antt =====
-- The audit log of the tool gateway.
use mathlib.Core.List.{reverse}
use app_shak_hq.Prelude.{Bool, List, Option, String, [], max, take, ℕ, ◌++◌, ◌+◌, ◌∷◌}
use app_shak_hq.Python.Value.{Fields}
use app_shak_hq.Substrate.MailStore.Tables.{AuditRow, Store}

-- what the gateway hands over for one row
pub record AuditEntry : Type 0 where
  pub agent_id : String
  pub action_type : String
  pub working_dir : String
  pub idempotency_key : Option String
  pub allowed : Bool
  pub reason : Option String
  pub payload : Fields
  pub result : Option Fields
  pub correlation_id : Option String

unfoldable pub audit_row : ℕ → String → AuditEntry → AuditRow
audit_row id now a = record {
  id = id;
  ts = now;
  agent_id = a.agent_id;
  action_type = a.action_type;
  working_dir = a.working_dir;
  idempotency_key = a.idempotency_key;
  allowed = a.allowed;
  reason = a.reason;
  payload = a.payload;
  result = a.result;
  correlation_id = a.correlation_id;
}

unfoldable pub append_tool_audit : AuditEntry → String → Store → ℕ × Store
unfolding audit_row
append_tool_audit a now s = (
  s.next_audit,
  record s { audit = s.audit ++ audit_row s.next_audit now a ∷ []; next_audit = s.next_audit + 1 },
)

-- ORDER BY id DESC LIMIT max(1, limit)
unfoldable pub list_tool_audit : ℕ → Store → List AuditRow
list_tool_audit limit s = take (max 1 limit) (reverse s.audit)
