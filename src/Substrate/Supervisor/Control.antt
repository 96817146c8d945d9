-- ===== src/Substrate/Supervisor/Control.antt =====
-- Control events: `publish_control_event`, `_record_worker_event` and `publish_heartbeat`.
use app_shak_hq.Prelude.{
  Bool, List, Option, String, [], false, if◌then◌else◌, ltb, none, some, ℕ, ◌*◌, ◌++◌, ◌-◌, ◌/◌,
  ◌∷◌,
}
use app_shak_hq.Python.Text.{concat, filled}
use app_shak_hq.Python.Value.{Fields, end, field, int, null, pos, setdefault, str, update}
use app_shak_hq.Substrate.Types.{SubstrateEvent, is_event}
use app_shak_hq.Substrate.MailStore.Keys.{reserve_idempotency_key, set_idempotency_result}
use app_shak_hq.Substrate.MailStore.Events.{append_event}
use app_shak_hq.Substrate.Supervisor.State.{
  Action, Env, contains, insert, lookup, modify, on_store, pure, ◌>>=◌, ◌>>◌,
}
use app_shak_hq.Python.Exec.{ok}

-- a call of `publish_control_event`; times in microseconds
pub record ControlEvent : Type 0 where
  pub event_type : String
  pub agent_id : Option String
  pub payload : Fields
  pub correlation_id : Option String
  pub dedupe_key : Option String
  pub dedupe_ttl : ℕ

-- `text or default`
abbrev pub or_text : Option String → String → String
or_text t default = elim (filled t) [ none ↦ default | some s ↦ s ]

-- an f-string's `{int(time.time())}`: whole seconds, printed
abbrev pub seconds_text : Env → String
seconds_text env = env.show (int (pos (env.wall / 1000000)))

-- `int(time.time() * 1000)`, printed
abbrev pub millis_text : Env → String
millis_text env = env.show (int (pos (env.wall / 1000)))

-- `event_type:agent`, with `all` where no agent is named
abbrev pub event_key : ControlEvent → String
event_key c = concat c.event_type (concat ":" (or_text c.agent_id "all"))

-- the key was used less than its time to live ago
abbrev pub is_recent : ℕ → ℕ → Option ℕ → Bool
is_recent now ttl none = false
is_recent now ttl (some previous) = ltb (now - previous) ttl

control_event : Env → ControlEvent → String → String → SubstrateEvent
control_event env c corr key = record {
  event_type = c.event_type;
  origin_id = "supervisor";
  payload =
      setdefault "prime_directive_justification"
        (str "Supervisor control events maintain resilient, safe swarm operation.")
        (setdefault "correlation_id" (str corr) (setdefault "idempotency_key" (str key) c.payload));
  timestamp = env.now_text;
  event_id = none;
  justification = none;
  status = "PENDING";
  error = null;
  correlation_id = some corr;
  target_agent = c.agent_id;
}

module _ (env : Env) where
  unfoldable pub append_control : ControlEvent → String → String → Action (Option ℕ)
  unfolding control_event
  append_control c corr key = do
    id ← on_store (append_event env.show env.now_text (is_event (control_event env c corr key)))
    modify λ s. record s {
      store =
          set_idempotency_result key
            (field "event_id" (int (pos id)) (field "event_type" (str c.event_type) end)) s.store;
    }
    pure (some id)

  unfoldable pub reserve_and_append : ControlEvent → Action (Option ℕ)
  reserve_and_append c =
      let corr = or_text c.correlation_id (concat (event_key c) (concat ":" (seconds_text env))) in
      let key = concat "control:" corr in
      do
        reserved ←
            on_store (reserve_idempotency_key key "supervisor" "CONTROL_EVENT" none env.now_text)
        (if reserved then append_control c corr key else pure none)

  -- An event whose key was used within its time to live is dropped, and so is one whose
  -- idempotency key is taken.
  unfoldable pub publish_control_event : ControlEvent → Action (Option ℕ)
  publish_control_event c s =
      let key = or_text c.dedupe_key (event_key c) in
      if is_recent env.monotonic c.dedupe_ttl (lookup key s.recent_control_keys)
      then (ok none, s)
      else reserve_and_append c
          (record s { recent_control_keys = insert key env.monotonic s.recent_control_keys })

  log_json : String → Fields → Action (Unit {0})
  log_json event_type payload =
      modify λ s. record s { journal = s.journal ++ (event_type, payload) ∷ [] }

  unfoldable pub record_worker_event : String → String → Fields → Action (Unit {0})
  unfolding log_json
  record_worker_event event_type agent details =
      let corr = concat event_type (concat ":" (concat agent (concat ":" (millis_text env)))) in
      do
        _ ← publish_control_event (record {
          event_type = event_type;
          agent_id = some "command";
          payload = update (field "agent_id" (str agent) end) details;
          correlation_id = some corr;
          dedupe_key = some corr;
          dedupe_ttl = 0;
        })
        log_json event_type (update (field "agent_id" (str agent) end) details)

  heartbeat_event : ℕ → String → ControlEvent
  heartbeat_event interval agent =
      let corr = concat "supervisor_heartbeat:" (concat agent (concat ":" (seconds_text env))) in
      record {
        event_type = "SUPERVISOR_HEARTBEAT";
        agent_id = some agent;
        payload = field "agent_id" (str agent) (
            field "heartbeat_at" (str env.now_text) (
              field "prime_directive_justification"
                (str "Supervisor heartbeat preserves worker liveness and durable orchestration.")
                end));
        correlation_id = some corr;
        dedupe_key = some corr;
        dedupe_ttl = interval * 4 / 5;
      }

  unfoldable pub heartbeats_for : ℕ → List String → List String → Action (Unit {0})
  unfolding heartbeat_event
  heartbeats_for interval disabled [] = pure tt
  heartbeats_for interval disabled (agent ∷ agents) =
      let rest = heartbeats_for interval disabled agents in
      if contains agent disabled
      then rest
      else do _ ← publish_control_event (heartbeat_event interval agent); rest

  unfoldable pub publish_heartbeat : Action (Unit {0})
  unfolding heartbeats_for
  publish_heartbeat s =
      heartbeats_for s.settings.heartbeat_interval s.disabled_workers s.settings.agent_ids s
