-- ===== src/Substrate/MailStore/Claim.antt =====
-- Claiming: `_release_expired_leases_locked`, `_try_claim_next` and the polling loop of
-- `claim_next_event`.
use app_shak_hq.Prelude.{
  Bool, List, Option, String, [], false, if◌then◌else◌, is_none, leb, max, nat_eq, none, not, some,
  string_eq, true, ℕ, ◌&&◌, ◌+◌, ◌==◌, ◌||◌, ◌∷◌,
}
use app_shak_hq.Python.Text.{is_blank, strip}
use app_shak_hq.Python.Exec.{Result, ok, require, value_error, ◌>>◌}
use app_shak_hq.Substrate.Types.{EventRow, SubstrateEvent, from_row}
use app_shak_hq.Substrate.MailStore.Tables.{Lease, Store, find_lease, insert_lease, update_event}

unfoldable pub drop_expired : ℕ → List Lease → List Lease
drop_expired now [] = []
drop_expired now (l ∷ ls) =
    let rest = drop_expired now ls in if leb l.lease_expiry now then rest else l ∷ rest

-- id IN (SELECT event_id FROM leases WHERE lease_expiry <= ?)
unfoldable pub has_expired : ℕ → List Lease → ℕ → Bool
has_expired now [] id = false
has_expired now (l ∷ ls) id = leb l.lease_expiry now && l.event_id == id || has_expired now ls id

unfoldable pub back_to_pending : ℕ → List Lease → List EventRow → List EventRow
back_to_pending now ls [] = []
back_to_pending now ls (e ∷ es) =
    (if has_expired now ls e.id then record e { status = "PENDING" } else e)
    ∷ back_to_pending now ls es

unfoldable pub release_expired_leases : ℕ → Store → Store
release_expired_leases now s = record s {
  events = back_to_pending now s.leases s.events;
  leases = drop_expired now s.leases;
}

-- what a consumer asks for
pub record Filter : Type 0 where
  pub target_agent : Option String
  pub include_unrouted : Bool

abbrev pub is_unrouted : Option String → Bool
is_unrouted none = true
is_unrouted (some t) = t == ""

abbrev pub is_for : String → Option String → Bool
is_for agent none = false
is_for agent (some t) = t == agent

abbrev pub routed : Option String → Bool → Option String → Bool
routed none unrouted target = true
routed (some agent) true target = is_for agent target || is_unrouted target
routed (some agent) false target = is_for agent target

unfoldable pub is_eligible : Filter → List Lease → EventRow → Bool
is_eligible q ls e =
    e.status == "PENDING"
    && is_none (find_lease e.id ls)
    && routed q.target_agent q.include_unrouted e.target_agent

-- ORDER BY e.id ASC LIMIT 1, over rows that stand in the order of their ids
unfoldable pub first_eligible : Filter → List Lease → List EventRow → Option EventRow
first_eligible q ls [] = none
first_eligible q ls (e ∷ es) = if is_eligible q ls e then some e else first_eligible q ls es

unfoldable pub claim_row : String → ℕ → ℕ → EventRow → Store → Option Store
claim_row consumer now window row s =
    let lease : Lease = record {
      event_id = row.id;
      claimed_by = consumer;
      claim_ts = now;
      lease_expiry = now + window;
    } in
    elim (insert_lease lease s.events s.leases) [
      | none ↦ none
      | some leases ↦ some (record s {
        leases = leases;
        events = update_event row.id (λ e. record e { status = "CLAIMED" }) s.events;
      })
    ]

-- `max(0.1, float(lease_seconds))`, in microseconds; the store's own lease where none is given
unfoldable pub lease_window : Option ℕ → ℕ → ℕ
lease_window none own = max 100000 own
lease_window (some given) own = max 100000 given

-- The event that is returned is read from the row as it was selected, before its status changed.
-- An IntegrityError rolls the transaction back.
unfoldable pub try_claim_next :
    String → Filter → ℕ → ℕ → String → Store → Option SubstrateEvent × Store
try_claim_next consumer q window now now_text s =
    let released = release_expired_leases now s in
    elim (first_eligible q released.leases released.events) [
      | none ↦ (none, released)
      | some row ↦ elim (claim_row consumer now window row released) [
        | none ↦ (none, s)
        | some claimed ↦ (some (from_row row now_text), claimed)
      ]
    ]

-- One turn of the loop of `claim_next_event`: what other connections commit before it, the wall
-- clock of its transaction, and the monotonic clock at its two tests.
pub record Turn : Type 0 where
  pub others : Store → Store
  pub now : ℕ
  pub now_text : String
  pub tested : ℕ
  pub before_sleep : ℕ

pub data Outcome : Type 0 where
  claimed : SubstrateEvent → Outcome
  timed_out : Outcome
  -- the turns that are given are used up
  waiting : Outcome

-- the deadline has passed, or nothing is left to sleep
abbrev pub out_of_time : Turn → Option ℕ → Bool
out_of_time t none = false
out_of_time t (some deadline) = leb deadline t.tested || leb deadline t.before_sleep

unfoldable pub claim_loop : String → Filter → ℕ → Option ℕ → List Turn → Store → Outcome × Store
claim_loop consumer q window deadline [] s = (waiting, s)
claim_loop consumer q window deadline (t ∷ ts) s =
    let (found, s') = try_claim_next consumer q window t.now t.now_text (t.others s) in
    elim found [
      | some e ↦ (claimed e, s')
      | none ↦
          let rest = claim_loop consumer q window deadline ts s' in
          if out_of_time t deadline then (timed_out, s') else rest
    ]

abbrev pub deadline_of : ℕ → Option ℕ → Option ℕ
deadline_of start none = none
deadline_of start (some timeout) = some (start + timeout)

abbrev pub stripped : Option String → Option String
stripped none = none
stripped (some t) = if is_blank t then none else some (strip t)

unfoldable pub claim_next_event :
    String → Filter → Option ℕ → ℕ → ℕ → Option ℕ → List Turn → Store → Result (Outcome × Store)
claim_next_event consumer q lease own start timeout turns s = do
  require (not (is_blank consumer)) (value_error "consumer_id must be a non-empty string")
  ok (
      claim_loop (strip consumer)
        (record { target_agent = stripped q.target_agent; include_unrouted = q.include_unrouted })
        (lease_window lease own) (deadline_of start timeout) turns s)
