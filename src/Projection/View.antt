-- ===== src/Projection/View.antt =====
-- The view of appshak_projection/schemas.py, as a record of what `normalize_projection_view` leaves:
-- counts that are not negative, and one of four states for each worker. The stress level, a
-- floating-point number made of the size of the queue, is left out.
use app_shak_hq.Prelude.{Bool, List, Option, String, false, if◌then◌else◌, none, ℕ}
use app_shak_hq.Python.Value.{Fields}

pub data WorkerStatus : Type 0 where
  idle active restarting offline : WorkerStatus

pub record WorkerView : Type 0 where
  pub present : Bool
  pub state : WorkerStatus
  pub last_event_type : Option String
  pub last_event_at : Option String
  pub restart_count : ℕ
  pub missed_heartbeat_count : ℕ
  pub worker_seen_id : ℕ

pub record Snapshot : Type 0 where
  pub snapshot_type : String
  pub snapshot_timestamp : String
  pub snapshot_origin : String
  pub snapshot_payload : Fields

pub record View : Type 0 where
  pub running : Bool
  pub events_processed : ℕ
  pub event_type_counts : List (String × ℕ)
  pub audits_allowed : ℕ
  pub audits_denied : ℕ
  pub workers : List (String × WorkerView)
  pub last_seen_event_id : ℕ
  pub last_seen_tool_audit_id : ℕ
  pub event_queue_size : ℕ
  pub current_event : Option Snapshot
  pub view_timestamp : String

abbrev pub default_worker : WorkerView
default_worker = record {
  present = false;
  state = idle;
  last_event_type = none;
  last_event_at = none;
  restart_count = 0;
  missed_heartbeat_count = 0;
  worker_seen_id = 0;
}

-- `derived["office_mode"]`
abbrev pub office_mode : View → String
office_mode v = if v.running then "RUNNING" else "PAUSED"
