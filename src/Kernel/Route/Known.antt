-- ===== src/Kernel/Route/Known.antt =====
-- What the publications of appshak/kernel.py itself and of its agents come to: none of them is
-- refused by the bus.
use app_shak_hq.Prelude.{
  String, [], if◌then◌else◌, nat_eq, none, refl, some, string_eq, ℕ, ◌++◌, ◌+◌, ◌==◌, ◌∷◌, ◌≡◌,
}
use app_shak_hq.Python.Text.{is_blank, lstrip, rstrip, strip}
use app_shak_hq.Python.Value.{
  Fields, end, field, get, get?, nonblank, obj, or_else, put, setdefault, str, truthy,
}
use app_shak_hq.Python.Exec.{ok}
use app_shak_hq.Kernel.Events.{
  Event, EventType, a_mapping, agent_status, constitution_violation, event_dict, event_type_of,
  external_action_request, external_action_result, indexed_payload, intent_dispatch, kernel_error,
  kernel_recovery, kernel_shutdown, kernel_start, normalize, own_payload, proposal,
  proposal_decision, proposal_invalid, proposal_vote_modified, publish_event, raw_type, type_text,
}
use app_shak_hq.Kernel.State.{
  AppShakKernel, Outside, own_justification, publish_raw, publish_system_event,
}
use app_shak_hq.Kernel.Chief.{agent_publish, arbitrate, build_event, handle_external_action}

-- the kernel after the event has been put on the bus and the hook has logged it
abbrev pub with_published : Event → AppShakKernel → AppShakKernel
with_published e k = record k {
  bus = record k.bus { queue = k.bus.queue ++ e ∷ []; next_index = k.bus.next_index + 1 };
  memory = record k.memory {
    global_log = k.memory.global_log ++ ("EVENT_PUBLISHED", event_dict e) ∷ [];
  };
}

abbrev pub justified_payload : Fields → Fields
justified_payload payload =
    setdefault "prime_directive_justification" (str own_justification) payload

abbrev pub clock_text : Outside → String
clock_text out = elim (nonblank (str out.now_text)) [ none ↦ out.now_text | some s ↦ s ]

abbrev pub system_event : Outside → EventType → Fields → ℕ → Event
system_event out kind payload index = record {
  event_type = kind;
  timestamp = clock_text out;
  origin_id = "kernel";
  payload = indexed_payload index (justified_payload payload);
}

pub raw_type-own :
    (kind : EventType) (d : Fields) → raw_type (field "type" (str (type_text kind)) d) ≡ ok kind
unfolding get get? is_blank strip lstrip rstrip event_type_of
raw_type-own proposal d = refl
raw_type-own proposal_invalid d = refl
raw_type-own proposal_decision d = refl
raw_type-own proposal_vote_modified d = refl
raw_type-own external_action_request d = refl
raw_type-own external_action_result d = refl
raw_type-own constitution_violation d = refl
raw_type-own kernel_start d = refl
raw_type-own kernel_shutdown d = refl
raw_type-own kernel_error d = refl
raw_type-own kernel_recovery d = refl
raw_type-own agent_status d = refl
raw_type-own intent_dispatch d = refl

pub publish_system_event-eq :
    (out : Outside) (kind : EventType) (payload : Fields) (k : AppShakKernel)
    → publish_system_event out kind payload k
      ≡ (ok tt, with_published (system_event out kind payload k.bus.next_index) k)
unfolding publish_system_event publish_raw publish_event normalize get get? or_else truthy is_blank
    strip lstrip rstrip
publish_system_event-eq out kind payload k = rw (raw_type-own kind) refl

-- the chief's report as it stands on the bus
abbrev pub report_event : Outside → Fields → ℕ → Event
report_event out result index = record {
  event_type = external_action_result;
  timestamp = if out.now_text == "" then out.now_text else out.now_text;
  origin_id = "command";
  payload = indexed_payload index (
      field "action" (str "chief_external_decision") (
        field "result" (obj result) (
          field "decided_by" (str "command") (
            field "prime_directive_justification"
              (str
                "chief_external_decision advances the Prime Directive by enforcing final authority over external actions with explicit constitutional rationale.")
              end))));
}

abbrev pub with_agent_event : String → Event → AppShakKernel → AppShakKernel
with_agent_event agent e k = record k {
  memory = record k.memory { agent_events = k.memory.agent_events ++ (agent, event_dict e) ∷ [] };
}

pub handle_external_action-eq :
    (out : Outside) (result : Fields) (k : AppShakKernel)
    → handle_external_action out result k ≡ (
        let e = report_event out result k.bus.next_index in
        (ok tt, with_agent_event "command" e (with_published e k)))
unfolding handle_external_action agent_publish build_event publish_raw publish_event normalize put
    get get? or_else truthy is_blank strip lstrip rstrip
handle_external_action-eq out result k = refl

abbrev pub decision_event : Outside → Event → ℕ → Event
decision_event out e index = record {
  event_type = proposal_decision;
  timestamp = out.now_text;
  origin_id = "command";
  payload = indexed_payload index (own_payload (get "payload" (arbitrate e)));
}

pub arbitrate-eq :
    (out : Outside) (e : Event) (k : AppShakKernel)
    → publish_raw out (a_mapping (arbitrate e)) k
      ≡ (let d = decision_event out e k.bus.next_index in (ok d, with_published d k))
unfolding arbitrate publish_raw publish_event normalize put get get? or_else truthy is_blank strip
    lstrip rstrip event_type_of
arbitrate-eq out e k = refl
