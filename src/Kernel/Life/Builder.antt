-- ===== src/Kernel/Life/Builder.antt =====
-- appshak/agents/builder.py: the requests that the builder makes of an approved proposal.
use app_shak_hq.Prelude.{
  Bool, String, [], arith, false, if◌then◌else◌, nat_eq, refl, some, string_eq, ℕ, ◌&&◌, ◌++◌, ◌==◌,
  ◌∷◌, ◌≡◌,
}
use app_shak_hq.Python.Text.{concat, is_blank, lstrip, rstrip, strip}
use app_shak_hq.Python.Value.{
  Fields, arr, arr_of, end, field, get, get?, obj, or_else, put, setdefault, str, truthy,
}
use app_shak_hq.Python.Exec.{ok}
use app_shak_hq.Kernel.Events.{Event, an_event, external_action_request, indexed_payload, normalize}
use app_shak_hq.Kernel.Safeguards.{Library, get_or, printed}
use app_shak_hq.Kernel.State.{AppShakKernel, KernelAction, Outside}
use app_shak_hq.Kernel.Chief.{agent_publish, approves, build_event, justify_action}
use app_shak_hq.Kernel.Route.{process_external_action}
use app_shak_hq.Kernel.Route.Stages.{stages, stages_in_order}

unfoldable pub translate_proposal_to_plan : Library → Event → Fields
translate_proposal_to_plan lib proposed =
    let target = get_or "action" (str "unspecified_action") proposed.payload in
    field "plan_id" (str (concat "plan:" (printed lib target))) (
      field "source_event_type" (str "PROPOSAL") (
        field "target_action" target (
          field "steps"
            (arr (
              arr_of (
                str "validate_inputs"
                ∷ str "prepare_external_request_payload"
                ∷ str "submit_external_action_request"
                ∷ [])))
            end)))

-- the event that `prepare_external_action_request` publishes
unfoldable pub builder_request : Outside → Fields → Event
unfolding build_event
builder_request out plan =
    build_event out "forge" external_action_request
      (field "action" (get_or "target_action" (str "unspecified_action") plan)
        (field "plan" (obj plan) end))
      (some (
        justify_action "prepare_external_action_request"
          "converting approved solutions into controlled requests for chief review."))

unfoldable pub prepare_external_action_request : Outside → Fields → KernelAction (Unit {0})
unfolding builder_request
prepare_external_action_request out plan =
    agent_publish out "forge" (an_event (builder_request out plan))

no_endpoint : (a b : Bool) → (a && false && b) ≡ false
no_endpoint a b = ground arith

-- What the builder publishes for any plan ends at the chief: the bus takes it unchanged but for its
-- index, and the pipeline then stops after the chief's approval stage, since the payload has neither
-- an endpoint nor a URL. The safeguards are never asked.
pub builder_request_denied :
    (out : Outside) (plan : Fields) (index : ℕ) (now : String) (k : AppShakKernel)
    → (e : Event) × (normalize now index (an_event (builder_request out plan)) ≡ ok e)
      × (e.event_type ≡ external_action_request)
      × (stages (process_external_action out e k).1
          ≡ stages k ++ "REQUEST" ∷ "CHIEF_APPROVAL" ∷ "LOG_RESULT" ∷ [])
      × ((process_external_action out e k).1.safeguards ≡ k.safeguards)
unfolding builder_request build_event normalize approves get get? or_else truthy put setdefault
    is_blank strip lstrip rstrip
builder_request_denied out plan index now k =
    let e : Event = record (builder_request out plan) {
      timestamp = if out.now_text == "" then now else out.now_text;
      payload = indexed_payload index (builder_request out plan).payload;
    } in
    let denied : approves e.payload ≡ false = no_endpoint _ _ in
    let run = stages_in_order out e k in (e, refl, refl, rw denied at run.1, rw denied at run.2)
