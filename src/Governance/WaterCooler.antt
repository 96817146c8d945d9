-- ===== src/Governance/WaterCooler.antt =====
-- appshak_governance/water_cooler.py: in a quiet moment the last event is passed on to other agents as
-- a lesson. The hash of a record is a parameter, as for the ledger.
pub mod Taught
pub mod Quiet
pub mod Passed
use app_shak_hq.Prelude.{
  Bool, List, Option, String, [], false, if◌then◌else◌, keep_if, length, map, nat_eq, none, not,
  some, string_eq, take, true, ℕ, ◌&&◌, ◌==◌, ◌∷◌,
}
use app_shak_hq.Python.Text.{concat, lower, strip, upper}
use app_shak_hq.Python.Value.{Fields, Value, arr, arr_of, end, field, get, int, obj, pos, str, ℤ}
use app_shak_hq.Governance.Floats.{FloatOps, as_float, one_float, zero_float}
use app_shak_hq.Governance.Registry.{
  AgentRegistry, add_lesson_reference, agent_id_of, agent_ids, has_agent,
}
use app_shak_hq.Governance.Outcomes.{Readers, as_int_or_zero, dict_of, int_lt, text_at}

pub record WaterCoolerLesson (F : Type 0) : Type 0 where
  pub lesson_id : String
  pub schema_version : ℕ
  pub source_event_type : String
  pub source_event_id : ℤ
  pub source_timestamp : String
  pub source_agent : String
  pub tags : List String
  pub summary : String
  pub confidence : F
  pub recipients : List String

pub record Propagation (F : Type 0) : Type 0 where
  pub triggered : Bool
  pub lesson : Option (WaterCoolerLesson F)
  pub propagation_metric : F

abbrev pub max_recipients : ℕ
max_recipients = 3

module _ {F : Type 0} (ops : FloatOps F) where
  abbrev pub first_agent : AgentRegistry F → List Value → Option String
  first_agent r [] = none
  first_agent r (v ∷ vs) =
      let candidate = agent_id_of v in
      let rest = first_agent r vs in
      if not (candidate == "") && has_agent ops candidate r then some candidate else rest

  abbrev pub or_first : List String → Option String → String
  or_first ids (some agent) = agent
  or_first [] none = "unknown"
  or_first (id ∷ ids) none = id

  -- `_source_agent`
  unfoldable pub source_agent_of : Fields → AgentRegistry F → String
  source_agent_of event_found r =
      let payload = dict_of (get "payload" event_found) in
      or_first (agent_ids ops r) (
        first_agent r (
          get "target_agent" payload
          ∷ get "agent_id" payload
          ∷ get "worker" payload
          ∷ get "origin_id" event_found
          ∷ []))

  abbrev pub recipients_of : String → AgentRegistry F → List String
  recipients_of source r =
      take max_recipients (keep_if (λ id. not (id == source)) (agent_ids ops r))

  -- each recipient learns of the lesson
  unfoldable pub pass_on : String → List String → AgentRegistry F → AgentRegistry F
  pass_on lesson_id [] r = r
  pass_on lesson_id (agent ∷ agents) r =
      pass_on lesson_id agents (add_lesson_reference ops agent lesson_id r)

  abbrev pub share_of : List String → List String → F
  share_of chosen [] = zero_float ops
  share_of chosen (id ∷ ids) = ops.div (ops.of_nat (length chosen)) (ops.of_nat (length (id ∷ ids)))

  abbrev pub not_triggered : Propagation F
  not_triggered = record { triggered = false; lesson = none; propagation_metric = zero_float ops }

  abbrev pub propagated : WaterCoolerLesson F → AgentRegistry F → Propagation F × AgentRegistry F
  propagated l r = (
    record {
      triggered = true;
      lesson = some l;
      propagation_metric = share_of l.recipients (agent_ids ops r);
    },
    pass_on l.lesson_id l.recipients r,
  )

module _ {F : Type 0} (ops : FloatOps F) (py : Readers) (hash : Fields → String) where
  -- `_idle_trigger`, of what the view derives, and of the two views
  abbrev pub is_paused : Value → Bool
  is_paused (obj derived) =
      upper (strip (text_at py "office_mode" derived)) == "PAUSED"
      && not
          (ops.lt (ops.literal "0.2") (as_float ops (get "stress_level" derived) (one_float ops)))
  is_paused _ = false

  unfoldable pub idle_trigger : Fields → Fields → Bool
  idle_trigger previous current =
      let earlier = as_int_or_zero py (get "last_seen_event_id" previous) in
      let later = as_int_or_zero py (get "last_seen_event_id" current) in
      int_lt earlier later && is_paused (get "derived" current)

  abbrev pub or_unknown : String → String
  or_unknown kind = if kind == "" then "UNKNOWN" else kind

  abbrev pub lesson_from : Fields → Fields → AgentRegistry F → WaterCoolerLesson F
  lesson_from current event_found r =
      let id = as_int_or_zero py (get "last_seen_event_id" current) in
      let kind = or_unknown (upper (strip (text_at py "type" event_found))) in
      let source = source_agent_of ops event_found r in
      let chosen = recipients_of ops source r in
      record {
        lesson_id = hash (
            field "source_event_id" (int id) (
              field "source_event_type" (str kind) (
                field "source_agent" (str source) (
                  field "registry_version" (int (pos r.version))
                    (field "recipients" (arr (arr_of (map str chosen))) end)))));
        schema_version = 1;
        source_event_type = kind;
        source_event_id = id;
        source_timestamp = strip (text_at py "timestamp" event_found);
        source_agent = source;
        tags = "governance" ∷ "water_cooler" ∷ lower kind ∷ [];
        summary =
            concat "Idle-window lesson from " (concat kind " for deterministic governance memory.");
        confidence = ops.literal "0.65";
        recipients = chosen;
      }

  abbrev pub with_event : Fields → Value → AgentRegistry F → Propagation F × AgentRegistry F
  with_event current (obj event_found) r = propagated ops (lesson_from current event_found r) r
  with_event current _ r = (not_triggered ops, r)

  unfoldable pub maybe_propagate : Value → Value → AgentRegistry F → Propagation F × AgentRegistry F
  unfolding idle_trigger source_agent_of pass_on
  maybe_propagate previous_view current_view r =
      let current = dict_of current_view in
      if idle_trigger (dict_of previous_view) current
      then with_event current (get "current_event" current) r
      else (not_triggered ops, r)
