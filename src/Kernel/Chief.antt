-- ===== src/Kernel/Chief.antt =====
-- appshak/agents/chief.py: the agent that decides on proposals and on external actions, with what it
-- has from appshak/agents/base.py.
use app_shak_hq.Prelude.{Bool, Option, String, if◌then◌else◌, none, some, ◌&&◌}
use app_shak_hq.Python.Text.{concat}
use app_shak_hq.Python.Value.{
  Fields, bool, end, field, get, nonblank, obj, opt_str, or_else, put, str, truthy,
}
use app_shak_hq.Kernel.Events.{Event, EventType, Raw, an_event, event_dict, external_action_result}
use app_shak_hq.Kernel.State.{
  KernelAction, Outside, append_agent_event, is_justified, publish_raw, ◌>>=◌,
}

abbrev pub justify_action : String → String → String
justify_action action impact = concat action (concat " advances the Prime Directive by " impact)

-- `explicit_justification or payload.get(…)`, if that is a text and not blank
abbrev pub resolve_justification : Fields → Option String → String
resolve_justification payload explicit =
    let candidate = or_else (opt_str explicit) (get "prime_directive_justification" payload) in
    elim (nonblank candidate) [
      | some s ↦ s
      | none ↦ justify_action "unknown_action" "maintaining operational continuity"
    ]

unfoldable pub build_event : Outside → String → EventType → Fields → Option String → Event
build_event out agent kind payload explicit = record {
  event_type = kind;
  timestamp = out.now_text;
  origin_id = agent;
  payload =
      put "prime_directive_justification" (str (resolve_justification payload explicit)) payload;
}

-- `BaseAgent.publish`
unfoldable pub agent_publish : Outside → String → Raw → KernelAction (Unit {0})
agent_publish out agent raw = do
  published ← publish_raw out raw
  append_agent_event agent (event_dict published)

unfoldable pub arbitrate : Event → Fields
arbitrate e =
    let approved = truthy (get "action" e.payload) in
    field "type" (str "PROPOSAL_DECISION") (
      field "origin_id" (str "command") (
        field "payload"
          (obj (
            field "action" (str "arbitrate_proposal") (
              field "proposal" (obj (event_dict e)) (
                field "approved" (bool approved) (
                  field "decision_reason"
                    (str (
                      if approved
                      then "Approved proposal: action is defined and reviewable."
                      else "Denied proposal: missing actionable proposal content."))
                    (field "prime_directive_justification"
                      (str (
                        justify_action "arbitrate_proposal"
                          "maintaining centralized control while advancing safe, continuous execution."))
                      end))))))
          end))

-- whether the action and the endpoint are there and the payload is justified
unfoldable pub approves : Fields → Bool
approves payload =
    truthy (get "action" payload)
    && truthy (or_else (get "endpoint" payload) (get "url" payload))
    && is_justified payload

unfoldable pub approve_external_action : Outside → Event → Fields
unfolding approves
approve_external_action out e =
    let approved = approves e.payload in
    field "approved" (bool approved) (
      field "reason"
        (str (
          if approved
          then "Approved: explicit action/endpoint with Prime Directive justification."
          else "Denied: missing action, endpoint, or Prime Directive justification."))
        (field "reviewed_by" (str "command") (
          field "timestamp" (str out.now_text) (
            field "prime_directive_justification"
              (str (
                justify_action "approve_external_action"
                  "preserving centralized authority and safe external governance."))
              end))))

unfoldable pub handle_external_action : Outside → Fields → KernelAction (Unit {0})
unfolding agent_publish build_event
handle_external_action out result = agent_publish out "command" (
    an_event (
      build_event out "command" external_action_result
        (field "action" (str "chief_external_decision")
          (field "result" (obj result) (field "decided_by" (str "command") end)))
        (some (
          justify_action "chief_external_decision"
            "enforcing final authority over external actions with explicit constitutional rationale."))))
