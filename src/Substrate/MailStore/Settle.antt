-- ===== src/Substrate/MailStore/Settle.antt =====
-- Settling a claimed event: `ack_event`, `fail_event` and `requeue_event`.
use app_shak_hq.Prelude.{Option, String, if◌then◌else◌, nat_eq, none, some, string_eq, ℕ, ◌==◌}
use app_shak_hq.Python.Text.{filled, is_blank, prefix, strip, upper}
use app_shak_hq.Python.Exec.{Result, ok, permission_error, raised}
use app_shak_hq.Substrate.Types.{EventRow}
use app_shak_hq.Substrate.MailStore.Tables.{Lease, Store, delete_lease, find_lease, update_event}

-- the row of the lease is there and names somebody else
abbrev pub held_by_other : String → Option Lease → Option String
held_by_other consumer none = none
held_by_other consumer (some l) = if l.claimed_by == consumer then none else some l.claimed_by

-- `if consumer_id:`, so without a consumer nobody is asked
abbrev pub blocker : Option String → ℕ → Store → Option String
blocker consumer id s = elim (filled consumer) [
  | none ↦ none
  | some c ↦ held_by_other c (find_lease id s.leases)
]

abbrev pub name_of : Option String → String
name_of none = ""
name_of (some c) = c

-- the transaction that the three methods share: refuse, or write the row and drop the lease
unfoldable pub settle : (EventRow → EventRow) → ℕ → Option String → Store → Result Store
settle write id consumer s = elim (blocker consumer id s) [
  | some holder ↦ raised (permission_error (name_of consumer) id holder)
  | none ↦
      ok (record s { events = update_event id write s.events; leases = delete_lease id s.leases })
]

abbrev pub final_status : String → String
final_status status = if is_blank status then "DONE" else upper (strip status)

unfoldable pub ack_event : ℕ → String → Option String → Store → Result Store
unfolding settle
ack_event id status consumer =
    settle (λ e. record e { status = final_status status; error = none }) id consumer

unfoldable pub fail_event : ℕ → String → Option String → Store → Result Store
unfolding settle
fail_event id error consumer =
    settle (λ e. record e { status = "FAILED"; error = some (prefix 4000 error) }) id consumer

abbrev pub kept_error : Option String → Option String
kept_error none = none
kept_error (some error) = some (prefix 4000 error)

unfoldable pub requeue_event : ℕ → Option String → Option String → Store → Result Store
unfolding settle
requeue_event id consumer error =
    settle (λ e. record e { status = "PENDING"; error = kept_error (filled error) }) id consumer
