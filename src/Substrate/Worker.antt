-- ===== src/Substrate/Worker.antt =====
-- appshak_substrate/worker_process.py: a turn of the worker's loop. What other connections commit
-- while the event is handled comes as a function on the store.
pub mod Ends
use app_shak_hq.Prelude.{Bool, List, String, if◌then◌else◌, leb, max, none, some, ℕ, ◌+◌}
use app_shak_hq.Python.Value.{Fields, pos}
use app_shak_hq.Python.Exec.{Error, Result, ok, raised}
use app_shak_hq.Substrate.Types.{SubstrateEvent}
use app_shak_hq.Substrate.MailStore.Tables.{Store}
use app_shak_hq.Substrate.MailStore.Claim.{Outcome, Turn, claim_next_event, claimed}
use app_shak_hq.Substrate.MailStore.Settle.{ack_event, fail_event}
use app_shak_hq.Substrate.MailStore.Keys.{record_worker_heartbeat}
use app_shak_hq.Substrate.Policy.{Host}
use app_shak_hq.Substrate.Gateway.Execute.{System}
use app_shak_hq.Substrate.Runtime.{AgentRuntime, Surroundings, handle_event}

-- the arguments of the command line, times in microseconds, with the process's id
pub record WorkerArgs : Type 0 where
  pub agent_id : String
  pub consumer_id : String
  pub pid : ℕ
  pub claim_timeout : ℕ
  pub lease : ℕ
  pub include_unrouted : Bool
  pub heartbeat_interval : ℕ

-- what a turn reads from outside: the clocks, the turns of the claim, and what others commit
pub record Happenings : Type 0 where
  pub monotonic : ℕ
  pub now_text : String
  pub claim_start : ℕ
  pub claim_turns : List Turn
  pub others : Store → Store

module _ {W : Type 0} (sys : System W) (host : Host) where
  failed : Result Store → Surroundings W → Result (Unit {0}) × Surroundings W
  failed (ok s) st = (ok tt, record st { store = s })
  failed (raised err) st = (raised err, st)

  -- the handler of exceptions
  unfoldable pub fail_with :
      String → ℕ → Error → Surroundings W → Result (Unit {0}) × Surroundings W
  unfolding failed
  fail_with consumer id err st =
      failed (fail_event id (sys.repr_error err) (some consumer) st.store) st

  unfoldable pub acked :
      String → ℕ → Result Store → Surroundings W → Result (Unit {0}) × Surroundings W
  acked consumer id (ok s) st = (ok tt, record st { store = s })
  acked consumer id (raised err) st = fail_with consumer id err st

  -- after the event has been handled: the ack, or the handler of the exception
  unfoldable pub settle_result :
      String → ℕ → Result Fields → Surroundings W → Result (Unit {0}) × Surroundings W
  settle_result consumer id (ok result) st =
      acked consumer id (ack_event id "DONE" (some consumer) st.store) st
  settle_result consumer id (raised err) st = fail_with consumer id err st

  -- what the handling of an event leaves, with what others commit until it is settled
  unfoldable pub handled :
      AgentRuntime → SubstrateEvent → Happenings → Surroundings W → Result Fields × Surroundings W
  handled runtime e h st =
      let (r, st') = handle_event sys host h.now_text runtime e st in
      (r, record st' { store = h.others st'.store })

  unfoldable pub process_event :
      AgentRuntime
      → String
      → ℕ
      → SubstrateEvent
      → Happenings
      → Surroundings W
      → Result (Unit {0}) × Surroundings W
  process_event runtime consumer id e h st =
      let (r, st') = handled runtime e h st in settle_result consumer id r st'

  -- An event without an id is left alone; ids of rows are not negative.
  process_claimed :
      AgentRuntime
      → String
      → Outcome
      → Happenings
      → Surroundings W
      → Result (Unit {0}) × Surroundings W
  process_claimed runtime consumer (claimed e) h st = elim e.event_id [
    | some (pos id) ↦ process_event runtime consumer id e h st
    | _ ↦ (ok tt, st)
  ]
  process_claimed runtime consumer _ h st = (ok tt, st)

  -- the claim, and what it returns
  claim_and_process :
      WorkerArgs → AgentRuntime → Happenings → Surroundings W → Result (Unit {0}) × Surroundings W
  unfolding process_claimed
  claim_and_process args runtime h st =
      elim (claim_next_event args.consumer_id
        (record { target_agent = some args.agent_id; include_unrouted = args.include_unrouted })
        (some args.lease) args.lease h.claim_start (some args.claim_timeout) h.claim_turns
        st.store) [
          | raised err ↦ (raised err, st)
          | ok (outcome, s) ↦
              process_claimed runtime args.consumer_id outcome h (record st { store = s })
        ]

  -- a turn, and when the next heartbeat is due
  pub worker_turn :
      WorkerArgs
      → AgentRuntime
      → ℕ
      → Happenings
      → Surroundings W
      → (Result (Unit {0}) × Surroundings W) × ℕ
  unfolding claim_and_process
  worker_turn args runtime next_heartbeat h st =
      if leb next_heartbeat h.monotonic
      then (
        claim_and_process args runtime h (record st {
          store =
              record_worker_heartbeat args.agent_id args.consumer_id args.pid none h.now_text
                st.store;
        }),
        h.monotonic + max 200000 args.heartbeat_interval,
      )
      else (claim_and_process args runtime h st, next_heartbeat)
