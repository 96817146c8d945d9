-- ===== src/Substrate/Worker/Ends.antt =====
-- How a worker ends the handling of an event.
use app_shak_hq.Prelude.{Option, String, none, refl, some, ℕ, ◌≡◌, ◌≢◌}
use app_shak_hq.Python.Value.{Fields}
use app_shak_hq.Python.Text.{filled, is_blank, prefix, upper}
use app_shak_hq.Python.Exec.{Result, ok, permission_error, raised}
use app_shak_hq.Substrate.Types.{SubstrateEvent}
use app_shak_hq.Substrate.MailStore.Tables.{Lease, find_lease}
use app_shak_hq.Substrate.MailStore.Settlement.{
  MaySettle, Settles, settlement_done, settlement_refused,
}
use app_shak_hq.Substrate.Policy.{Host}
use app_shak_hq.Substrate.Gateway.Execute.{System}
use app_shak_hq.Substrate.Runtime.{AgentRuntime, Surroundings}
use app_shak_hq.Substrate.Worker.{
  Happenings, acked, fail_with, handled, process_event, settle_result,
}

module _ {W : Type 0} (sys : System W) (host : Host) where
  -- the status and the error that an event gets by what its handling has returned or raised
  abbrev pub end_status : Result Fields → String
  end_status (ok result) = "DONE"
  end_status (raised err) = "FAILED"

  abbrev pub end_error : Result Fields → Option String
  end_error (ok result) = none
  end_error (raised err) = some (prefix 4000 (sys.repr_error err))

  settle_result-Settles :
      (consumer : String) (id : ℕ) (r : Result Fields) (st : Surroundings W)
      → MaySettle (some consumer) id st.store
      → ((settle_result sys host consumer id r st).0 ≡ ok tt)
        × Settles
            (ok (settle_result sys host consumer id r st).1.store)
            id
            (end_status r)
            (end_error r)
            st.store
  unfolding settle_result acked fail_with is_blank upper
  settle_result-Settles consumer id (ok result) st may =
      let (s', made, rows, freed, next, keys) =
        (settlement_done id "DONE" "" none (some consumer) st.store may).0 in
      (rw (made, acked) refl, (s', rw (made, acked) refl, rows, freed, next, keys))
  settle_result-Settles consumer id (raised err) st may =
      let (s', made, rows, freed, next, keys) =
        (settlement_done id "DONE" (sys.repr_error err) none (some consumer) st.store may).1 in
      (rw (made, fail_with) refl, (s', rw (made, fail_with) refl, rows, freed, next, keys))

  -- A worker that still may settle the event when its handling is over goes on, and has settled
  -- it: DONE if the handling has returned, FAILED with the error if it has raised; its lease
  -- goes, and no other event or lease changes.
  pub handled_event_settled :
      (runtime : AgentRuntime) (consumer : String) (id : ℕ) (e : SubstrateEvent) (h : Happenings)
      (st : Surroundings W)
      → MaySettle (some consumer) id (handled sys host runtime e h st).1.store
      → ((process_event sys host runtime consumer id e h st).0 ≡ ok tt)
        × Settles
            (ok (process_event sys host runtime consumer id e h st).1.store)
            id
            (end_status (handled sys host runtime e h st).0)
            (end_error (handled sys host runtime e h st).0)
            (handled sys host runtime e h st).1.store
  unfolding process_event
  handled_event_settled runtime consumer id e h st may =
      let x = handled sys host runtime e h st in settle_result-Settles consumer id x.0 x.1 may

  settle_result_refused :
      (consumer : String) (id : ℕ) (r : Result Fields) (st : Surroundings W) (l : Lease)
      → filled (some consumer) ≡ some consumer
      → find_lease id st.store.leases ≡ some l
      → l.claimed_by ≢ consumer
      → settle_result sys host consumer id r st
        ≡ (raised (permission_error consumer id l.claimed_by), st)
  unfolding settle_result acked fail_with
  settle_result_refused consumer id (ok result) st l named leased ne =
      let lost = permission_error consumer id l.claimed_by in
      let refused =
        settlement_refused id "DONE" (sys.repr_error lost) consumer none (some consumer) st.store l
          leased named ne in
      rw (refused.0, acked) (rw (refused.1, fail_with) refl)
  settle_result_refused consumer id (raised err) st l named leased ne =
      let fails =
        (settlement_refused id "DONE" (sys.repr_error err) consumer none (some consumer) st.store l
          leased named ne).1 in
      rw (fails, fail_with) refl

  -- A worker whose event is leased to another consumer when its handling is over ends: whether the
  -- handling has returned or raised, the permission error of the settlement leaves the turn, and
  -- nothing is settled.
  pub lost_lease_ends_worker :
      (runtime : AgentRuntime) (consumer : String) (id : ℕ) (e : SubstrateEvent) (h : Happenings)
      (st : Surroundings W) (l : Lease)
      → filled (some consumer) ≡ some consumer
      → find_lease id (handled sys host runtime e h st).1.store.leases ≡ some l
      → l.claimed_by ≢ consumer
      → process_event sys host runtime consumer id e h st
        ≡ (raised (permission_error consumer id l.claimed_by), (handled sys host runtime e h st).1)
  unfolding process_event
  lost_lease_ends_worker runtime consumer id e h st l named leased ne =
      let x = handled sys host runtime e h st in
      settle_result_refused consumer id x.0 x.1 l named leased ne
