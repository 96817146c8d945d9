-- ===== src/Kernel/State.antt =====
-- The state of `AppShakKernel` (appshak/kernel.py) with that of its memory (appshak/memory.py), and
-- the kernel's actions as a monad. The logs are lists of what has been written, the oldest first;
-- their timestamps and the writing of files are not modelled, and neither is the time of the last
-- change that the memory notes.
use app_shak_hq.Prelude.{Bool, List, String, [], false, if◌then◌else◌, is_some, true, ℕ, ◌++◌, ◌∷◌}
use app_shak_hq.Python.Value.{Fields, end, field, get, nonblank, obj, setdefault, str, update}
use app_shak_hq.Python.Exec.{Error, Result, ok, raised}
use app_shak_hq.Kernel.Events.{
  Event, EventBus, EventType, Raw, a_mapping, constitution_violation, event_dict, kernel_error,
  publish_event, type_text,
}
use app_shak_hq.Kernel.Safeguards.{Library, SafeguardMonitor}

pub record Memory : Type 0 where
  pub global_log : List (String × Fields)
  pub error_log : List (String × String)
  pub external_log : List (String × Fields)
  pub agent_events : List (String × Fields)
  pub kernel_state : Fields
  pub external_pipeline : Fields

pub record AppShakKernel : Type 0 where
  pub running : Bool
  pub stop_set : Bool
  pub bus : EventBus
  pub safeguards : SafeguardMonitor
  pub memory : Memory
  pub heartbeat_failures : ℕ
  pub agent_tasks : List String
  pub heartbeat_task : Bool
  pub recovered_state : Fields

-- What the kernel reads from outside: the libraries, `repr` of an exception, and the clock, which
-- stands still while one event is handled.
pub record Outside : Type 0 where
  pub library : Library
  pub repr : Error → String
  pub now : ℕ
  pub now_text : String

-- an action: its result or the exception, and the state that it leaves
abbrev pub KernelAction {ℓ} : Type ℓ → Type ℓ
KernelAction A = AppShakKernel → Result A × AppShakKernel

abbrev pub resume {ℓ κ} :
    {A : Type ℓ} {B : Type κ} → Result A → (A → KernelAction B) → KernelAction B
resume (ok a) f k = f a k
resume (raised e) f k = (raised e, k)

infixl 10 ◌>>=◌ ◌>>◌
abbrev pub ◌>>=◌ {ℓ κ} :
    {A : Type ℓ} {B : Type κ} → KernelAction A → (A → KernelAction B) → KernelAction B
◌>>=◌ m f k = let (r, k') = m k in resume r f k'

abbrev pub ◌>>◌ {ℓ κ} : {A : Type ℓ} {B : Type κ} → KernelAction A → KernelAction B → KernelAction B
m >> n = m >>= λ _. n

abbrev pub pure {ℓ} : {A : Type ℓ} → A → KernelAction A
pure a k = (ok a, k)

abbrev pub done : KernelAction (Unit {0})
done k = (ok tt, k)

abbrev pub on_memory : (Memory → Memory) → KernelAction (Unit {0})
on_memory f k = (ok tt, record k { memory = f k.memory })

-- a call of the monitor: what it returns, and the monitor after it
abbrev pub on_safeguards {ℓ} :
    {A : Type ℓ} → (SafeguardMonitor → A × SafeguardMonitor) → KernelAction A
on_safeguards f k = let (a, m) = f k.safeguards in (ok a, record k { safeguards = m })

-- `append_global_log`, `log_external_action`, `append_agent_event`
abbrev pub append_global_log : String → Fields → KernelAction (Unit {0})
append_global_log kind payload =
    on_memory (λ m. record m { global_log = m.global_log ++ (kind, payload) ∷ [] })

abbrev pub log_external_action : String → Fields → KernelAction (Unit {0})
log_external_action stage payload =
    on_memory (λ m. record m { external_log = m.external_log ++ (stage, payload) ∷ [] })

abbrev pub append_agent_event : String → Fields → KernelAction (Unit {0})
append_agent_event agent payload =
    on_memory (λ m. record m { agent_events = m.agent_events ++ (agent, payload) ∷ [] })

-- `log_error`
abbrev pub log_error : String → String → KernelAction (Unit {0})
log_error source message = do
  on_memory (λ m. record m { error_log = m.error_log ++ (source, message) ∷ [] })
  append_global_log "ERROR" (field "source" (str source) (field "message" (str message) end))

-- `save_kernel_state` and `save_external_pipeline_state`
abbrev pub save_kernel_state : Fields → KernelAction (Unit {0})
save_kernel_state state = on_memory (λ m. record m { kernel_state = update m.kernel_state state })

abbrev pub save_external_pipeline_state : Fields → KernelAction (Unit {0})
save_external_pipeline_state state = on_memory (λ m. record m { external_pipeline = state })

-- `event_bus.publish`: its hook `_on_event_published` logs the event
abbrev pub put_on_bus : Result (Event × List (ℕ × Event)) × EventBus → KernelAction Event
put_on_bus (raised e, bus) k = (raised e, record k { bus = bus })
put_on_bus (ok (e, calls), bus) k =
    (append_global_log "EVENT_PUBLISHED" (event_dict e) >> pure e) (record k { bus = bus })

unfoldable pub publish_raw : Outside → Raw → KernelAction Event
publish_raw out raw k = put_on_bus (publish_event out.now_text raw k.bus) k

abbrev pub own_justification : String
own_justification =
    "Kernel governance action preserves safe, continuous operation under the Prime Directive."

-- `_publish_system_event`
unfoldable pub publish_system_event : Outside → EventType → Fields → KernelAction (Unit {0})
unfolding publish_raw
publish_system_event out kind payload = do
  publish_raw out (
      a_mapping (
        field "type" (str (type_text kind)) (
          field "origin_id" (str "kernel") (
            field "timestamp" (str out.now_text) (
              field "payload"
                (obj (setdefault "prime_directive_justification" (str own_justification) payload))
                end)))))
  done

-- `_log_kernel_error`
unfoldable pub log_kernel_error : Outside → String → Error → KernelAction (Unit {0})
unfolding publish_system_event
log_kernel_error out source error = do
  log_error source (out.repr error)
  publish_system_event out kernel_error (
      field "source" (str source)
        (field "error" (str (out.repr error)) (field "timestamp" (str out.now_text) end)))

-- `bool(text)` for the justification of a payload
abbrev pub is_justified : Fields → Bool
is_justified payload = is_some (nonblank (get "prime_directive_justification" payload))

abbrev pub violation_details : Event → Fields
violation_details e =
    field "reason" (str "Missing Prime Directive justification on event")
      (field "event_type" (str (type_text e.event_type)) (field "origin_id" (str e.origin_id) end))

-- `_event_is_compliant`
unfoldable pub event_is_compliant : Outside → Event → KernelAction Bool
unfolding publish_system_event
event_is_compliant out e =
    if is_justified e.payload
    then pure true
    else (publish_system_event out constitution_violation (violation_details e) >> pure false)
