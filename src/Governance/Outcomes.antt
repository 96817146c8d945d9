-- ===== src/Governance/Outcomes.antt =====
-- appshak_governance/projection_adapter.py: the outcomes that a step from one projection view to the
-- next stands for. A view is a dictionary; `str(value)` and `int(value)` (`none` where it raises)
-- are Python's, and parameters. The known agents are a list of normalised ids.
pub mod Known
use app_shak_hq.Prelude.{
  Bool, List, Option, String, [], false, if◌then◌else◌, ltb, nat_eq, none, not, some, string_eq,
  true, ℕ, ◌&&◌, ◌++◌, ◌-◌, ◌==◌, ◌||◌, ◌∷◌,
}
use app_shak_hq.Python.Text.{strip, upper}
use app_shak_hq.Python.Value.{
  Fields, Value, end, field, get, get?, negsuc, obj, pos, str, truthy, ℤ,
}
use app_shak_hq.Substrate.Supervisor.State.{contains}
use app_shak_hq.Governance.Registry.{agent_id_of, normalize_agent_id, sorted_texts}
use app_shak_hq.Governance.Relationship.{GovernanceOutcome}

-- what Python's `str` and `int` make of a value
pub record Readers : Type 0 where
  pub show : Value → String
  pub to_int : Value → Option ℤ

abbrev pub success_event_types : List String
success_event_types =
    "SUPERVISOR_START" ∷ "INTENT_DISPATCH" ∷ "WORKER_STARTED" ∷ "WORKER_RESTARTED" ∷ []

abbrev pub failure_event_types : List String
failure_event_types =
    "SUPERVISOR_STOP" ∷ "PROPOSAL_INVALID" ∷ "WORKER_EXITED" ∷ "WORKER_HEARTBEAT_MISSED"
    ∷ "WORKER_RESTART_SCHEDULED" ∷ []

abbrev pub escalation_event_types : List String
escalation_event_types = "PROPOSAL_INVALID" ∷ "WORKER_EXITED" ∷ "WORKER_HEARTBEAT_MISSED" ∷ []

abbrev pub event_outcome : String → String
event_outcome t =
    if contains t success_event_types
    then "SUCCESS"
    else (if contains t failure_event_types then "FAILURE" else "")

-- `a < b`
abbrev pub int_lt : ℤ → ℤ → Bool
int_lt (pos a) (pos b) = ltb a b
int_lt (pos a) (negsuc b) = false
int_lt (negsuc a) (pos b) = true
int_lt (negsuc a) (negsuc b) = ltb b a

-- `max(0, n)`
abbrev pub nat_part : ℤ → ℕ
nat_part (pos n) = n
nat_part (negsuc n) = 0

abbrev pub dict_of : Value → Fields
dict_of (obj d) = d
dict_of _ = end

module _ (py : Readers) where
  abbrev pub as_int_or_zero : Value → ℤ
  as_int_or_zero v = elim (py.to_int v) [ none ↦ pos 0 | some n ↦ n ]

  -- `str(d.get(key, ""))`
  abbrev pub text_at : String → Fields → String
  text_at key d = elim (get? key d) [ none ↦ "" | some (str s) ↦ s | some v ↦ py.show v ]

  abbrev pub known_of : List String → Value → Option String
  known_of known v =
      let candidate = agent_id_of v in
      if not (candidate == "") && contains candidate known then some candidate else none

  abbrev pub first_known : List String → List Value → String
  first_known known [] = ""
  first_known known (v ∷ vs) = elim (known_of known v) [
    | some agent ↦ agent
    | none ↦ first_known known vs
  ]

  -- `_resolve_subject_id`
  unfoldable pub resolve_subject_id : List String → Fields → String
  resolve_subject_id known event_found =
      let payload = dict_of (get "payload" event_found) in
      first_known known (
        get "target_agent" payload
        ∷ get "agent_id" payload
        ∷ get "worker" payload
        ∷ get "origin_id" event_found
        ∷ [])

  -- `_tool_counts`, one count
  abbrev pub tool_count : String → Fields → ℕ
  tool_count key view = nat_part (as_int_or_zero (get key (dict_of (get "tool_audit_counts" view))))

  is_active : Value → Bool
  is_active (obj state) =
      let s = upper (strip (text_at "state" state)) in
      truthy (get "present" state)
      || s == "ACTIVE"
      || s == "IDLE"
      || s == "OFFLINE"
      || s == "RESTARTING"
  is_active _ = false

  active_of : List String → Fields → List String
  unfolding is_active
  active_of known end = []
  active_of known (field worker state workers) =
      let id = normalize_agent_id worker in
      let rest = active_of known workers in
      if not (id == "") && contains id known && is_active state then id ∷ rest else rest

  abbrev pub or_everyone : List String → List String → List String
  or_everyone known [] = sorted_texts known
  or_everyone known (a ∷ active) = sorted_texts (a ∷ active)

  -- `_active_agents`
  unfoldable pub active_agents : List String → Fields → List String
  unfolding active_of
  active_agents known view = elim (get "workers" view) [
    | obj workers ↦ or_everyone known (active_of known workers)
    | _ ↦ sorted_texts known
  ]

  abbrev pub outcome_for : String → String → Bool → String → ℤ → String → GovernanceOutcome
  outcome_for agent kind escalated source id timestamp = record {
    agent_id = agent;
    outcome = kind;
    escalated = escalated;
    source_event_type = source;
    source_event_id = id;
    source_timestamp = timestamp;
  }

  -- the outcome of the view's current event, if it has one
  abbrev pub event_outcomes : List String → ℤ → Value → List GovernanceOutcome
  event_outcomes known id (obj event_found) =
      let kind = upper (strip (text_at "type" event_found)) in
      let subject = resolve_subject_id known event_found in
      let result = event_outcome kind in
      if kind == "" || subject == "" || result == ""
      then []
      else outcome_for subject result (contains kind escalation_event_types) kind id
          (strip (text_at "timestamp" event_found))
        ∷ []
  event_outcomes known id _ = []

  -- what the new tool audits mean for one active agent
  abbrev pub tool_outcomes : ℕ → ℕ → ℤ → String → String → List GovernanceOutcome
  tool_outcomes allowed denied id timestamp agent =
      (if ltb 0 allowed
        then outcome_for agent "SUCCESS" false "TOOL_AUDIT_ALLOWED_DELTA" id timestamp ∷ []
        else [])
      ++ (if ltb 0 denied
          then outcome_for agent "FAILURE" true "TOOL_AUDIT_DENIED_DELTA" id timestamp ∷ []
          else [])

  abbrev pub all_tool_outcomes : ℕ → ℕ → ℤ → String → List String → List GovernanceOutcome
  all_tool_outcomes allowed denied id timestamp [] = []
  all_tool_outcomes allowed denied id timestamp (a ∷ agents) =
      tool_outcomes allowed denied id timestamp a
      ++ all_tool_outcomes allowed denied id timestamp agents

  -- `derive_outcomes`; a view that is no dictionary counts as an empty one
  unfoldable pub derive_outcomes : Fields → Fields → List String → List GovernanceOutcome
  unfolding resolve_subject_id active_agents
  derive_outcomes previous current known =
      let before = as_int_or_zero (get "last_seen_event_id" previous) in
      let id = as_int_or_zero (get "last_seen_event_id" current) in
      let allowed = tool_count "allowed" current - tool_count "allowed" previous in
      let denied = tool_count "denied" current - tool_count "denied" previous in
      (if int_lt before id then event_outcomes known id (get "current_event" current) else [])
      ++ all_tool_outcomes allowed denied id (text_at "timestamp" current)
          (active_agents known current)
