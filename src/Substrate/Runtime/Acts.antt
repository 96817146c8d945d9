-- ===== src/Substrate/Runtime/Acts.antt =====
-- What the runtime does to the world outside.
use app_shak_hq.Prelude.{
  Bool-cases, Option-cases, String, false, inl, inr, nat_eq, refl, some, string_eq, ◌&&◌, ◌==◌, ◌∙◌,
  ◌≡◌, ◌⊎◌,
}
use app_shak_hq.Python.Value.{Fields, Value, get, nonblank, obj}
use app_shak_hq.Python.Exec.{Result, Result-cases, ok, raised, ◌>>=◌}
use app_shak_hq.Substrate.Types.{SubstrateEvent, ToolRequest, ToolResult, is_event}
use app_shak_hq.Substrate.MailStore.Tables.{Store}
use app_shak_hq.Substrate.MailStore.Events.{append_event}
use app_shak_hq.Substrate.Policy.{Host}
use app_shak_hq.Substrate.Gateway.Request.{RawRequest, coerce_request, is_dict}
use app_shak_hq.Substrate.Gateway.Execute.{System}
use app_shak_hq.Substrate.Gateway.Handle.{ToolGateway, execute}
use app_shak_hq.Substrate.Gateway.Handle.Audited.{PassedPolicy, executed_only_if_allowed}
use app_shak_hq.Substrate.Runtime.{
  AgentRuntime, Surroundings, after_change, after_request, change_key, forge_request, handle_event,
  handle_forge_change, handle_raw_request, handle_tool_request, is_for_other, log_runtime, logged,
  reply, request_data, request_key, send_reply,
}

module _ {W : Type 0} (sys : System W) (host : Host) (now : String) where
  -- what is asked for can be read as a request, and that has passed the gateway's policy
  abbrev pub Passed : ToolGateway → RawRequest → Type 0
  Passed g raw =
      (q : ToolRequest) × (coerce_request sys.show raw ≡ ok q) × PassedPolicy sys host now g q

  execute_world :
      (g : ToolGateway) (raw : RawRequest) (s : Store) (w : W)
      → ((execute sys host now g raw s w).2 ≡ w) ⊎ Passed g raw
  unfolding execute
  execute_world g raw s w = elim (Result-cases (coerce_request sys.show raw)) [
    | inr (err, e) ↦ inl (rw (e, execute) refl)
    | inl (q, e) ↦ elim (executed_only_if_allowed sys host now g q s w) [
      | inl passed ↦ inr (q, e, passed)
      | inr (inl (t, same, _)) ↦ inl (rw (e, execute) (λ i. (same i).2))
      | inr (inr (err, same)) ↦ inl (rw (e, execute) (λ i. (same i).2))
    ]
  ]

  module _ (runtime : AgentRuntime) (e : SubstrateEvent) where
    send_reply_world :
        (t : ToolResult) (key : Result Value) (st : Surroundings W)
        → (send_reply sys host now runtime e t key st).1.world ≡ st.world
    unfolding send_reply
    send_reply_world t (raised err) st = refl
    send_reply_world t (ok key) st =
        elim (Result-cases (
          reply sys.bind_text now runtime e key t >>= λ answer.
          append_event sys.show now (is_event answer) st.store)) [
            | inl ((id, store), made) ↦ rw (made, send_reply) refl
            | inr (err, failed) ↦ rw (failed, send_reply) refl
          ]

    after_request_world :
        (req : Fields) (t : Result ToolResult) (st : Surroundings W)
        → (after_request sys host now runtime e req t st).1.world ≡ st.world
    unfolding after_request
    after_request_world req (raised err) st = refl
    after_request_world req (ok t) st = send_reply_world t (request_key req) st

    after_change_world :
        (t : Result ToolResult) (st : Surroundings W)
        → (after_change sys host now e t st).1.world ≡ st.world
    unfolding after_change
    after_change_world (raised err) st = refl
    after_change_world (ok t) st = refl

    log_runtime_world :
        (entry : Fields) (st : Surroundings W) → (log_runtime runtime entry st).world ≡ st.world
    unfolding log_runtime
    log_runtime_world entry st = elim (Bool-cases runtime.logs) [
      | inl on ↦ rw (on, log_runtime) refl
      | inr off ↦ rw (off, log_runtime) refl
    ]

    logged_world :
        (r : Result Fields × Surroundings W) → (logged sys host now runtime e r).1.world ≡ r.1.world
    unfolding logged
    logged_world (raised err, st) = refl
    logged_world (ok result, st) = log_runtime_world _ st

    -- what a TOOL_REQUEST or a FORGE_PROPOSE_CHANGE event asks the gateway for
    abbrev pub Asks : RawRequest → Type 0
    Asks raw =
        ((r : Fields) × (get "request" e.payload ≡ obj r)
          × (raw ≡ is_dict (request_data runtime e r)))
        ⊎ ((workdir : String) × (nonblank (get "working_dir" e.payload) ≡ some workdir)
            × (raw ≡ is_dict (forge_request e workdir (change_key sys host now e))))

    -- the runtime's gateway was asked for what the event asks for, and its policy was passed
    abbrev pub AskedAndPassed : Type 0
    AskedAndPassed =
        (g : ToolGateway) × (runtime.tool_gateway ≡ some g)
        × ((raw : RawRequest) × Asks raw × Passed g raw)

    abbrev Acted : Surroundings W → W → Type 0
    Acted st w = (w ≡ st.world) ⊎ AskedAndPassed

    through :
        (g : ToolGateway) (raw : RawRequest) (st : Surroundings W) {w : W}
        → runtime.tool_gateway ≡ some g
        → Asks raw
        → w ≡ (execute sys host now g raw st.store st.world).2
        → Acted st w
    through g raw st has asks same = elim (execute_world g raw st.store st.world) [
      | inl untouched ↦ inl (same ∙ untouched)
      | inr passed ↦ inr (g, has, (raw, asks, passed))
    ]

    raw_request-Acted :
        (g : ToolGateway) (v : Value) (st : Surroundings W)
        → runtime.tool_gateway ≡ some g
        → get "request" e.payload ≡ v
        → Acted st (handle_raw_request sys host now runtime e g v st).1.world
    unfolding handle_raw_request
    raw_request-Acted g (obj raw) st has asked =
        let req = request_data runtime e raw in
        let x = execute sys host now g (is_dict req) st.store st.world in
        through g (is_dict req) st has (inl (raw, asked, refl))
          (after_request_world req x.0 (record st { store = x.1; world = x.2 }))
    raw_request-Acted g _ st has asked = inl refl

    tool_request-Acted :
        (st : Surroundings W) → Acted st (handle_tool_request sys host now runtime e st).1.world
    unfolding handle_tool_request
    tool_request-Acted st = elim (Option-cases runtime.tool_gateway) [
      | inl e0 ↦ inl (rw (e0, handle_tool_request) refl)
      | inr (g, has) ↦ elim (raw_request-Acted g (get "request" e.payload) st has refl) [
        | inl same ↦ inl (rw (has, handle_tool_request) same)
        | inr passed ↦ inr passed
      ]
    ]

    forge_change-Acted :
        (st : Surroundings W) → Acted st (handle_forge_change sys host now runtime e st).1.world
    unfolding handle_forge_change
    forge_change-Acted st = elim (Option-cases runtime.tool_gateway) [
      | inl e0 ↦ inl (rw (e0, handle_forge_change) refl)
      | inr (g, has) ↦ elim (Option-cases (nonblank (get "working_dir" e.payload))) [
        | inl e1 ↦ inl (rw (has, e1, handle_forge_change) refl)
        | inr (workdir, e1) ↦
            let raw = is_dict (forge_request e workdir (change_key sys host now e)) in
            let x = execute sys host now g raw st.store st.world in
            let world_same = after_change_world x.0 (record st { store = x.1; world = x.2 }) in
            elim (through g raw st has (inr (workdir, e1, refl)) world_same) [
              | inl same ↦ inl (rw (has, e1, handle_forge_change) same)
              | inr passed ↦ inr passed
            ]
      ]
    ]

    -- Handling an event leaves the world outside as it is, whether it returns or raises, or the
    -- event is not another agent's, the runtime has a gateway, and the request that the event asks
    -- for can be read and has passed the policy of that gateway.
    pub acts_only_if_passed :
        (st : Surroundings W)
        → ((handle_event sys host now runtime e st).1.world ≡ st.world)
          ⊎ ((is_for_other runtime e ≡ false) × AskedAndPassed)
    unfolding handle_event
    acts_only_if_passed st = elim (Bool-cases (is_for_other runtime e)) [
      | inl other ↦ inl (rw (other, handle_event) refl)
      | inr own ↦ elim (Bool-cases (e.event_type == "SUPERVISOR_HEARTBEAT")) [
        | inl beat ↦ inl (rw (own, beat, handle_event) refl)
        | inr no_beat ↦ elim (Bool-cases (e.event_type == "TOOL_REQUEST")) [
          | inl tool ↦ elim (tool_request-Acted st) [
            | inl same ↦ inl (rw (own, no_beat, tool, handle_event) (logged_world _ ∙ same))
            | inr passed ↦ inr (own, passed)
          ]
          | inr no_tool ↦
              elim (Bool-cases
                (runtime.agent_id == "forge" && e.event_type == "FORGE_PROPOSE_CHANGE")) [
                  | inl change ↦ elim (forge_change-Acted st) [
                    | inl same ↦
                        inl
                          (rw (own, no_beat, no_tool, change, handle_event) (logged_world _ ∙ same))
                    | inr passed ↦ inr (own, passed)
                  ]
                  | inr no_change ↦
                      inl (
                        rw (own, no_beat, no_tool, no_change, handle_event)
                          (log_runtime_world _ st))
                ]
        ]
      ]
    ]
