-- ===== src/Projection/Projector.antt =====
-- appshak_projection/projector.py: `project_once` over the events and the tool audits that the mail
-- store lists. A listed event has the id of its row, which is not negative.
use app_shak_hq.Prelude.{
  Bool, List, Option, String, [], false, if◌then◌else◌, keep_if, leb, length, ltb, max, nat_eq,
  none, some, string_eq, true, ℕ, ◌+◌, ◌==◌, ◌∷◌,
}
use app_shak_hq.Python.Text.{filled, is_blank, lower, strip, upper}
use app_shak_hq.Python.Value.{Value, get, negsuc, nonblank, pos}
use app_shak_hq.Substrate.Types.{SubstrateEvent}
use app_shak_hq.Substrate.MailStore.Tables.{AuditRow}
use app_shak_hq.Substrate.Supervisor.State.{insert, lookup, number_or_zero}
use app_shak_hq.Projection.View.{
  Snapshot, View, WorkerView, active, default_worker, offline, restarting,
}

-- `_event_id`
abbrev pub seen_id : SubstrateEvent → ℕ
seen_id e = elim e.event_id [ some (pos n) ↦ n | some (negsuc n) ↦ 0 | none ↦ 0 ]

abbrev pub type_of_event : SubstrateEvent → String
type_of_event e = upper (strip e.event_type)

abbrev pub is_waiting : SubstrateEvent → Bool
is_waiting e = upper (strip e.status) == "PENDING"

-- `_max_event`, from what has been found so far
abbrev pub max_from : ℕ → Option SubstrateEvent → List SubstrateEvent → ℕ × Option SubstrateEvent
max_from top latest [] = (top, latest)
max_from top latest (e ∷ es) =
    if leb top (seen_id e) then max_from (seen_id e) (some e) es else max_from top latest es

abbrev pub snapshot_of : Option SubstrateEvent → Option Snapshot
snapshot_of none = none
snapshot_of (some e) = some (record {
  snapshot_type = e.event_type;
  snapshot_timestamp = e.timestamp;
  snapshot_origin = e.origin_id;
  snapshot_payload = e.payload;
})

abbrev first_text : List Value → Option String
first_text [] = none
first_text (v ∷ vs) = elim (nonblank v) [ some s ↦ some (lower (strip s)) | none ↦ first_text vs ]

-- `_worker_id_from_event_payload`
unfoldable pub worker_id_of : SubstrateEvent → Option String
worker_id_of e =
    first_text
      (get "target_agent" e.payload ∷ get "agent_id" e.payload ∷ get "worker" e.payload ∷ [])

abbrev text_unless_blank : String → Option String
text_unless_blank s = if is_blank s then none else some s

-- what an event of the type does to the state of its worker
unfoldable pub worker_after : String → WorkerView → WorkerView
worker_after kind w =
    if kind == "WORKER_STARTED"
    then record w { present = true; state = active }
    else (if kind == "WORKER_RESTART_SCHEDULED"
        then record w { state = restarting }
        else (if kind == "WORKER_RESTARTED"
            then record w { present = true; state = active; restart_count = w.restart_count + 1 }
            else (if kind == "WORKER_EXITED"
                then record w { present = false; state = offline }
                else (if kind == "WORKER_HEARTBEAT_MISSED"
                    then (if leb 2 (w.missed_heartbeat_count + 1)
                        then record w {
                          missed_heartbeat_count = w.missed_heartbeat_count + 1;
                          present = false;
                          state = offline;
                        }
                        else record w { missed_heartbeat_count = w.missed_heartbeat_count + 1 })
                    else w))))

abbrev noted_worker : SubstrateEvent → WorkerView → WorkerView
noted_worker e w = record w {
  last_event_type = filled (some (type_of_event e));
  last_event_at = text_unless_blank e.timestamp;
  worker_seen_id = max w.worker_seen_id (seen_id e);
}

abbrev worker_or_default : Option WorkerView → WorkerView
worker_or_default none = default_worker
worker_or_default (some w) = w

-- the event at the worker that it names, if it names one
abbrev pub at_worker : Option String → SubstrateEvent → View → View
at_worker none e v = v
at_worker (some id) e v = record v {
  workers =
      insert id
        (worker_after (type_of_event e) (noted_worker e (worker_or_default (lookup id v.workers))))
        v.workers;
}

-- `_apply_worker_event`
unfoldable pub apply_worker_event : SubstrateEvent → View → View
apply_worker_event e v = at_worker (worker_id_of e) e v

abbrev running_after : String → Bool → Bool
running_after kind running =
    if kind == "SUPERVISOR_START"
    then true
    else (if kind == "SUPERVISOR_STOP" then false else running)

abbrev counted_type : String → List (String × ℕ) → List (String × ℕ)
counted_type kind counts =
    if kind == "" then counts else insert kind (number_or_zero (lookup kind counts) + 1) counts

abbrev pub counted_event : SubstrateEvent → View → View
counted_event e v = record v {
  event_type_counts = counted_type (type_of_event e) v.event_type_counts;
  events_processed = v.events_processed + 1;
  running = running_after (type_of_event e) v.running;
}

-- `_apply_event`
unfoldable pub apply_event : SubstrateEvent → View → View
unfolding apply_worker_event
apply_event e v = apply_worker_event e (counted_event e v)

-- `_apply_tool_audit`
unfoldable pub apply_tool_audit : AuditRow → View → View
apply_tool_audit row v =
    if row.allowed
    then record v { audits_allowed = v.audits_allowed + 1 }
    else record v { audits_denied = v.audits_denied + 1 }

-- The rows with an id above the cursor, in the order of their ids; the sort is stable.
module _ {A : Type 0} (id_of : A → ℕ) where
  abbrev pub place_by : A → List A → List A
  place_by x [] = x ∷ []
  place_by x (y ∷ ys) =
      let rest = place_by x ys in if leb (id_of x) (id_of y) then x ∷ y ∷ ys else y ∷ rest

  abbrev pub sorted_by : List A → List A
  sorted_by [] = []
  sorted_by (x ∷ xs) = place_by x (sorted_by xs)

  unfoldable pub newer : ℕ → List A → List A
  newer cursor xs = sorted_by (keep_if (λ x. ltb cursor (id_of x)) xs)

  -- the cursor after the rows
  abbrev pub cursor_after : ℕ → List A → ℕ
  cursor_after cursor [] = cursor
  cursor_after cursor (x ∷ xs) = cursor_after (max cursor (id_of x)) xs

  abbrev pub fold_rows : (A → View → View) → List A → View → View
  fold_rows f [] v = v
  fold_rows f (x ∷ xs) v = fold_rows f xs (f x v)

abbrev pub audit_id : AuditRow → ℕ
audit_id row = row.id

-- the end of `project_once`, from the view with the new rows applied and the two cursors
abbrev pub finished : String → List SubstrateEvent → ℕ → ℕ → View → View
finished now events event_cursor audit_cursor v =
    let (top, latest) = max_from 0 none events in
    record v {
      view_timestamp = now;
      last_seen_event_id = max event_cursor top;
      last_seen_tool_audit_id = audit_cursor;
      event_queue_size = length (keep_if is_waiting events);
      current_event = snapshot_of latest;
    }

unfoldable pub project_once : String → List SubstrateEvent → List AuditRow → View → View
unfolding newer apply_event apply_tool_audit
project_once now events audits v =
    let new_events = newer seen_id v.last_seen_event_id events in
    let new_audits = newer audit_id v.last_seen_tool_audit_id audits in
    finished now events (cursor_after seen_id v.last_seen_event_id new_events)
      (cursor_after audit_id v.last_seen_tool_audit_id new_audits)
      (fold_rows audit_id apply_tool_audit new_audits (fold_rows seen_id apply_event new_events v))
