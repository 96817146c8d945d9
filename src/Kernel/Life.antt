-- ===== src/Kernel/Life.antt =====
-- appshak/kernel.py: the start, the heartbeat and the stop, with the scout and the builder
-- of appshak/agents/. A plugin is its name and what it does with the current event; what
-- `load_state` finds is an argument. Tasks of the event loop are known by their names, and what they
-- do between the kernel's own steps is the argument `others`.
pub mod Builder
use app_shak_hq.Prelude.{
  Bool, List, Option, String, [], false, if◌then◌else◌, none, not, some, true, ℕ, ◌&&◌, ◌+◌, ◌||◌,
  ◌∷◌,
}
use app_shak_hq.Python.Text.{concat}
use app_shak_hq.Python.Value.{Fields, Value, bool, end, field, get, int, obj, pos, str}
use app_shak_hq.Kernel.Events.{
  Event, EventBus, Next, agent_status, an_event, blocked, bus_get_next, constitution_violation, got,
  kernel_recovery, kernel_shutdown, kernel_start, too_late, type_text,
}
use app_shak_hq.Kernel.State.{
  AppShakKernel, KernelAction, Outside, done, log_kernel_error, publish_system_event, resume,
  save_kernel_state, ◌>>=◌, ◌>>◌,
}
use app_shak_hq.Kernel.Chief.{agent_publish, build_event, justify_action}
use app_shak_hq.Kernel.Route.{route_event}
use app_shak_hq.Python.Exec.{Error, Result, ok, raised}

pub record Plugin : Type 0 where
  pub plugin_name : String
  pub plugin_dispatch : Option Event → KernelAction (Unit {0})

-- `try: … except Exception as exc: …`
abbrev pub handled_by :
    Result (Unit {0}) × AppShakKernel
    → (Error → KernelAction (Unit {0}))
    → Result (Unit {0}) × AppShakKernel
handled_by (ok tt, k) handler = (ok tt, k)
handled_by (raised e, k) handler = handler e k

abbrev set_running : KernelAction (Unit {0})
set_running k = (ok tt, record k { running = true })

abbrev with_tasks : List String → Bool → KernelAction (Unit {0})
with_tasks names heartbeat k = (ok tt, record k { agent_tasks = names; heartbeat_task = heartbeat })

module _ (out : Outside) where
  unfoldable pub run_plugins : Option Event → List Plugin → KernelAction (Unit {0})
  run_plugins current [] k = (ok tt, k)
  run_plugins current (p ∷ ps) k =
      let (r, k') =
        handled_by (p.plugin_dispatch current k)
          (λ e. log_kernel_error out (concat "plugin:" p.plugin_name) e) in
      resume r (λ _. run_plugins current ps) k'

  -- `ScoutAgent.search_for_problems`
  unfoldable pub search_for_problems : KernelAction (Unit {0})
  search_for_problems = agent_publish out "recon" (
      an_event (
        build_event out "recon" agent_status
          (field "action" (str "search_for_problems")
            (field "status" (str "idle_scan_complete") (field "agent" (str "recon") end)))
          (some (
            justify_action "search_for_problems"
              "continuously discovering valuable real-world opportunities to solve."))))

  -- `request_emergency_stop`
  unfoldable pub request_emergency_stop : String → String → KernelAction (Unit {0})
  request_emergency_stop reason origin k =
      if k.stop_set
      then (ok tt, k)
      else (do
        publish_system_event out constitution_violation (
            field "reason" (str (concat "EMERGENCY_STOP: " reason))
              (field "origin_id" (str origin) (field "triggered_at" (str out.now_text) end)))
        save_kernel_state (
            field "running" (bool false) (
              field "emergency_stop" (bool true) (
                field "emergency_stop_reason" (str reason) (
                  field "emergency_stop_origin_id" (str origin)
                    (field "emergency_stop_at" (str out.now_text) end))))))
          (record k { stop_set = true; running = false })

  -- `_persist_heartbeat_state`
  unfoldable pub persist_heartbeat_state : Option Event → KernelAction (Unit {0})
  persist_heartbeat_state event_found k =
      save_kernel_state
        (field "running" (bool k.running) (
          field "last_heartbeat_at" (str out.now_text) (
            field "last_event_type"
              (str (elim event_found [ none ↦ "IDLE" | some e ↦ type_text e.event_type ]))
              (field "heartbeat_failures" (int (pos k.heartbeat_failures)) end))))
        k

  abbrev next_event : Next → Option Event
  next_event (got e) = some e
  next_event too_late = none
  next_event blocked = none

  -- the event that the bus gives within the poll's timeout
  unfoldable pub poll_bus : (EventBus → EventBus) → Option ℕ → KernelAction (Option Event)
  poll_bus others timeout k =
      let (n, bus) = bus_get_next others timeout k.bus in
      (ok (next_event n), record k { bus = bus })

  abbrev act_on : List Plugin → Option Event → KernelAction (Unit {0})
  act_on plugins none = search_for_problems
  act_on plugins (some e) = run_plugins (some e) plugins >> route_event out e

  -- one turn of `heartbeat` within its `try`
  cycle : List Plugin → (EventBus → EventBus) → ℕ → KernelAction (Unit {0})
  unfolding poll_bus
  cycle plugins others timeout = do
    run_plugins none plugins
    event_found ← poll_bus others (some timeout)
    act_on plugins event_found
    persist_heartbeat_state event_found

  recovery_details : Error → Value → Fields
  recovery_details e state = field "recovered_at" (str out.now_text) (
      field "heartbeat_error" (str (out.repr e))
        (field "recovered_kernel_state" (elim state [ obj d ↦ obj d | _ ↦ obj end ]) end))

  -- the `except` clause, with what `load_state` returns
  recover : Fields → Error → KernelAction (Unit {0})
  unfolding recovery_details
  recover loaded e k =
      (do
        log_kernel_error out "heartbeat" e
        publish_system_event out kernel_recovery (recovery_details e (get "kernel_state" loaded)))
        (record k { heartbeat_failures = k.heartbeat_failures + 1 })

  -- one turn of `heartbeat`; `signal` says whether the emergency stop file is there
  unfoldable pub heartbeat_turn :
      List Plugin → Fields → Bool → (EventBus → EventBus) → ℕ → KernelAction (Unit {0})
  unfolding cycle recover
  heartbeat_turn plugins loaded signal others timeout k =
      if not k.running || k.stop_set
      then (ok tt, k)
      else handled_by
          ((if signal
              then request_emergency_stop "Emergency stop signal detected." "operator"
              else cycle plugins others timeout)
            k)
          (recover loaded)

  abbrev recover_from : Fields → Value → KernelAction (Unit {0})
  recover_from loaded (obj (field key v d)) = publish_system_event out kernel_recovery (
      field "recovered_at" (str out.now_text)
        (field "recovered_kernel_state" (obj (field key v d)) end))
  recover_from loaded _ = done

  abbrev agent_names : List String
  agent_names = "recon" ∷ "forge" ∷ "command" ∷ []

  -- `start`, up to the point where the tasks run
  unfoldable pub start_kernel : Fields → KernelAction (Unit {0})
  start_kernel loaded k =
      if k.running
      then (ok tt, k)
      else (do
        recover_from loaded (get "kernel_state" loaded)
        set_running
        publish_system_event out kernel_start (field "started_at" (str out.now_text) end)
        with_tasks agent_names true)
          (record k { stop_set = false; recovered_state = loaded })

  abbrev is_nil : List String → Bool
  is_nil [] = true
  is_nil (_ ∷ _) = false

  -- `shutdown`; the agents' own hooks do nothing
  unfoldable pub shutdown : KernelAction (Unit {0})
  shutdown k =
      if not k.running && is_nil k.agent_tasks && not k.heartbeat_task
      then (ok tt, k)
      else (do
        publish_system_event out kernel_shutdown (field "stopped_at" (str out.now_text) end)
        with_tasks [] false)
          (record k { running = false; stop_set = true })
