-- ===== src/Kernel/Route.antt =====
-- appshak/kernel.py: what becomes of an event that the kernel takes from the bus.
pub mod Known
pub mod Stages
pub mod Drain
use app_shak_hq.Prelude.{Bool, String, false, if◌then◌else◌}
use app_shak_hq.Python.Value.{Fields, end, field, get, obj, str, truthy, update}
use app_shak_hq.Kernel.Events.{
  Event, EventType, a_mapping, constitution_violation, event_dict, external_action_request,
  proposal,
}
use app_shak_hq.Kernel.Safeguards.{record_attempt}
use app_shak_hq.Kernel.Safeguards.Gate.{check_request, execute_in_sandbox, is_allowed}
use app_shak_hq.Kernel.State.{
  KernelAction, Outside, append_global_log, done, event_is_compliant, log_external_action,
  on_safeguards, publish_raw, publish_system_event, save_external_pipeline_state, ◌>>=◌, ◌>>◌,
}
use app_shak_hq.Kernel.Chief.{approve_external_action, arbitrate, handle_external_action}

module _ (out : Outside) where
  -- `_log_external_stage`
  unfoldable pub log_external_stage : String → String → Fields → KernelAction (Unit {0})
  log_external_stage stage origin details =
      log_external_action stage
        (update (field "origin_id" (str origin) (field "timestamp" (str out.now_text) end)) details)

  abbrev pub denied_result : Event → Fields → Fields
  denied_result e approval =
      field "status" (str "denied_by_chief")
        (field "request" (obj (event_dict e)) (field "approval" (obj approval) end))

  denied_by_chief : Event → Fields → KernelAction (Unit {0})
  unfolding log_external_stage
  denied_by_chief e approval = do
    log_external_stage "LOG_RESULT" e.origin_id (denied_result e approval)
    handle_external_action out (denied_result e approval)

  abbrev pub blocked_details : Event → Fields
  blocked_details e =
      field "reason" (str "Safeguard blocked external action request.") (
        field "event_type" (str "EXTERNAL_ACTION_REQUEST")
          (field "origin_id" (str e.origin_id) end))

  abbrev pub blocked_result : Event → Fields → Fields → Fields → Fields
  blocked_result e approval check attempt = field "status" (str "blocked_by_safeguard") (
      field "request" (obj (event_dict e)) (
        field "approval" (obj approval)
          (field "safeguard_check" (obj check) (field "attempt_state" (obj attempt) end))))

  blocked_by_safeguard : Event → Fields → Fields → KernelAction (Unit {0})
  unfolding log_external_stage
  blocked_by_safeguard e approval check = do
    attempt ← on_safeguards (record_attempt out.library e.payload e.origin_id out.now false)
    publish_system_event out constitution_violation (blocked_details e)
    log_external_stage "LOG_RESULT" e.origin_id (blocked_result e approval check attempt)
    handle_external_action out (blocked_result e approval check attempt)

  abbrev pub succeeded : Fields → Bool
  succeeded execution = truthy (get "success" execution)

  abbrev pub executed_result : Event → Fields → Fields → Fields → Fields → Fields
  executed_result e approval check execution attempt =
      field "status" (str (if succeeded execution then "executed" else "execution_denied")) (
        field "request" (obj (event_dict e)) (
          field "approval" (obj approval) (
            field "safeguard_check" (obj check)
              (field "execution" (obj execution) (field "attempt_state" (obj attempt) end)))))

  executed : Event → Fields → Fields → KernelAction (Unit {0})
  unfolding log_external_stage
  executed e approval check = do
    let execution = execute_in_sandbox out.library e.payload e.origin_id
    log_external_stage "EXECUTE" e.origin_id
        (field "request" (obj (event_dict e)) (field "execution" (obj execution) end))
    attempt ←
        on_safeguards
          (record_attempt out.library e.payload e.origin_id out.now (succeeded execution))
    let result = executed_result e approval check execution attempt
    log_external_stage "LOG_RESULT" e.origin_id result
    save_external_pipeline_state
        (field "last_result" (obj result) (field "updated_at" (str out.now_text) end))
    handle_external_action out result

  checked_action : Event → Fields → KernelAction (Unit {0})
  unfolding log_external_stage blocked_by_safeguard executed
  checked_action e approval = do
    check ← on_safeguards (check_request out.library e.payload e.origin_id out.now)
    log_external_stage "SAFEGUARD_CHECK" e.origin_id
        (field "request" (obj (event_dict e)) (field "safeguard_check" (obj check) end))
    if is_allowed check then executed e approval check else blocked_by_safeguard e approval check

  -- `_process_external_action_pipeline`
  unfoldable pub process_external_action : Event → KernelAction (Unit {0})
  unfolding log_external_stage denied_by_chief checked_action
  process_external_action e = do
    log_external_stage "REQUEST" e.origin_id (field "request" (obj (event_dict e)) end)
    let approval = approve_external_action out e
    log_external_stage "CHIEF_APPROVAL" e.origin_id
        (field "request" (obj (event_dict e)) (field "approval" (obj approval) end))
    if truthy (get "approved" approval)
        then checked_action e approval
        else denied_by_chief e approval

  abbrev pub dispatch : Event → EventType → KernelAction (Unit {0})
  dispatch e proposal = publish_raw out (a_mapping (arbitrate e)) >> done
  dispatch e external_action_request = process_external_action e
  dispatch e _ = done

  -- `_route_event`
  unfoldable pub route_event : Event → KernelAction (Unit {0})
  unfolding process_external_action
  route_event e = do
    append_global_log "EVENT_CONSUMED" (event_dict e)
    compliant ← event_is_compliant out e
    if compliant then dispatch e e.event_type else done
