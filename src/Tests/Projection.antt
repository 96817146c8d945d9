-- ===== src/Tests/Projection.antt =====
-- The theorem on appshak_projection/ at concrete inputs.
use app_shak_hq.Prelude.{
  Bool, List, String, [], arith, false, none, refl, some, true, ℕ, ◌++◌, ◌∷◌, ◌≡◌,
}
use app_shak_hq.Python.Value.{end, field, null, pos, str}
use app_shak_hq.Substrate.Types.{SubstrateEvent}
use app_shak_hq.Substrate.MailStore.Tables.{AuditRow}
use app_shak_hq.Projection.View.{View}
use app_shak_hq.Projection.Projector.{project_once}
use app_shak_hq.Projection.Statuses.{projection_resumes}

abbrev event_about : ℕ → String → String → SubstrateEvent
event_about id kind status = record {
  event_type = kind;
  origin_id = "supervisor";
  payload = field "worker" (str "forge") end;
  timestamp = "t";
  event_id = some (pos id);
  justification = none;
  status = status;
  error = null;
  correlation_id = none;
  target_agent = none;
}

abbrev audit_row_of : ℕ → Bool → AuditRow
audit_row_of id allowed = record {
  id = id;
  ts = "t";
  agent_id = "forge";
  action_type = "RUN_CMD";
  working_dir = "/w";
  idempotency_key = none;
  allowed = allowed;
  reason = none;
  payload = end;
  result = none;
  correlation_id = none;
}

abbrev first_view : View
first_view = record {
  running = false;
  events_processed = 0;
  event_type_counts = [];
  audits_allowed = 0;
  audits_denied = 0;
  workers = [];
  last_seen_event_id = 0;
  last_seen_tool_audit_id = 0;
  event_queue_size = 0;
  current_event = none;
  view_timestamp = "t0";
}

abbrev listed : List SubstrateEvent
listed = event_about 1 "SUPERVISOR_START" "PENDING" ∷ event_about 2 "WORKER_STARTED" "PENDING" ∷ []

abbrev settled_listed : List SubstrateEvent
settled_listed =
    event_about 1 "SUPERVISOR_START" "DONE" ∷ event_about 2 "WORKER_STARTED" "CLAIMED" ∷ []

abbrev arrived : List SubstrateEvent
arrived = event_about 4 "WORKER_EXITED" "PENDING" ∷ []

projection_resumes_example :
    project_once "t2"
      (settled_listed ++ arrived)
      (audit_row_of 2 false ∷ audit_row_of 1 true ∷ [])
      (project_once "t1" listed (audit_row_of 1 true ∷ []) first_view)
    ≡ project_once "t2"
        (settled_listed ++ arrived)
        (audit_row_of 2 false ∷ audit_row_of 1 true ∷ [])
        first_view
projection_resumes_example =
    projection_resumes "t1" "t2" 2 1 listed settled_listed arrived (audit_row_of 1 true ∷ [])
      (audit_row_of 2 false ∷ []) first_view refl (omega arith, (omega arith, tt)) (omega arith, tt)
      (omega arith, tt) (omega arith, tt)
