-- ===== src/Tests/MailStore.antt =====
-- The theorems on the mail store at a store of three events, one of them leased.
use app_shak_hq.Prelude.{
  All, List, [], arith, false, if◌then◌else◌, inl, inr, none, refl, some, true, ℕ, ◌+◌, ◌↔◌, ◌∷◌,
  ◌≡◌, ◌≢◌, ◌≤◌,
}
use app_shak_hq.Python.Value.{end, field, get?, int, null, pos, put, setdefault, str}
use app_shak_hq.Python.Text.{is_blank, lstrip, prefix, rstrip, strip, upper}
use app_shak_hq.Python.Exec.{ok, permission_error, raised}
use app_shak_hq.Substrate.Types.{SubstrateEvent, from_row, is_event}
use app_shak_hq.Substrate.MailStore.Tables.{Store, find_event, find_lease, insert_lease}
use app_shak_hq.Substrate.MailStore.Events.{append_event, get_event}
use app_shak_hq.Substrate.MailStore.Claim.{
  Filter, Outcome, Turn, back_to_pending, claim_next_event, claim_row, drop_expired, first_eligible,
  has_expired, is_eligible, release_expired_leases, try_claim_next,
}
use app_shak_hq.Substrate.MailStore.Settle.{ack_event, fail_event, requeue_event, settle}
use app_shak_hq.Substrate.MailStore.Keys.{find_key, reserve_idempotency_key}
use app_shak_hq.Substrate.MailStore.Invariant.{IsWellFormed, status_of}
use app_shak_hq.Substrate.MailStore.History.{Call, acks, fails, run, run-IsWellFormed, step, tries}
use app_shak_hq.Substrate.MailStore.Exclusive.{
  Foreign, IsHeld, leased_not_reclaimed, run_keeps_lease,
}
use app_shak_hq.Substrate.MailStore.Delivery.{IsClaimable, claim_least, claim_none_iff}
use app_shak_hq.Substrate.MailStore.Settlement.{
  Settles, late_failure_overwrites, only_holder-Settles, settlement_done,
}
use app_shak_hq.Substrate.MailStore.Final.{IsSettled, IsSettled-not_redelivered}
use app_shak_hq.Substrate.MailStore.Once.{reserved_once}
use app_shak_hq.Substrate.MailStore.Reading.{Explains, append_get_roundtrip, polling_ends}
use app_shak_hq.Tests.Data.{
  for_forge, held, mail, mail-IsWellFormed, sample_event, sample_row, texts_differ,
}

-- calls that are not those of the lease's holder, before the lease runs out
abbrev by_others : List Call
by_others =
    tries "worker:b" for_forge 1000 700 "later"
    ∷ acks 1 "DONE" (some "worker:b")
    ∷ fails 2 "broken" (some "worker:b")
    ∷ []

by_others-Foreign : All (Foreign held) by_others
by_others-Foreign = (
  omega arith,
  (inr ("worker:b", refl, texts_differ _ _ refl), (inl (λ e. omega (arith, e)), tt)),
)

run_keeps_lease_example :
    IsHeld held (run mail by_others)
    × (status_of (find_event 1 (run mail by_others).events) ≡ some "CLAIMED")
unfolding find_lease
run_keeps_lease_example =
    run_keeps_lease held by_others mail mail-IsWellFormed refl by_others-Foreign

run-IsWellFormed_example : IsWellFormed (run mail by_others)
run-IsWellFormed_example = run-IsWellFormed by_others mail mail-IsWellFormed

-- the event that a claim of another worker returns
abbrev second : SubstrateEvent
second = record {
  event_type = "TOOL_REQUEST";
  origin_id = "command";
  payload = field "event_id" (int (pos 2)) end;
  timestamp = "2026-02-19T00:00:00+00:00";
  event_id = some (pos 2);
  justification = none;
  status = "PENDING";
  error = null;
  correlation_id = none;
  target_agent = some "forge";
}

-- an ack by another worker, which is refused
abbrev refused_ack : List Call
refused_ack = acks 1 "DONE" (some "worker:b") ∷ []

second_claimed_after :
    (try_claim_next "worker:b" for_forge 1000 700 "later" (run mail refused_ack)).0 ≡ some second
unfolding run step ack_event settle try_claim_next first_eligible is_eligible release_expired_leases
    claim_row find_lease find_event insert_lease from_row drop_expired has_expired back_to_pending
    setdefault get? put
second_claimed_after = refl

second_claimed : (try_claim_next "worker:b" for_forge 1000 700 "later" mail).0 ≡ some second
unfolding try_claim_next first_eligible is_eligible release_expired_leases claim_row find_lease
    find_event insert_lease from_row drop_expired has_expired back_to_pending setdefault get? put
second_claimed = refl

leased_not_reclaimed_example : some (pos 2) ≢ some (pos 1)
unfolding find_lease
leased_not_reclaimed_example =
    leased_not_reclaimed held refused_ack mail "worker:b" for_forge 1000 700 "later" {e = second}
      mail-IsWellFormed refl (inr ("worker:b", refl, texts_differ _ _ refl), tt) (omega arith)
      second_claimed_after

claim_least_example :
    (j : ℕ) × (some (pos 2) ≡ some (pos j))
    × IsClaimable for_forge 700 mail j
    × ((k : ℕ) → IsClaimable for_forge 700 mail k → j ≤ k)
    × (find_lease j (try_claim_next "worker:b" for_forge 1000 700 "later" mail).1.leases
        ≡ some (record {
          event_id = j;
          claimed_by = "worker:b";
          claim_ts = 700;
          lease_expiry = 700 + 1000;
        }))
    × (status_of (find_event j (try_claim_next "worker:b" for_forge 1000 700 "later" mail).1.events)
        ≡ some "CLAIMED")
claim_least_example =
    claim_least "worker:b" for_forge 1000 700 "later" mail {e = second} mail-IsWellFormed
      second_claimed

abbrev for_scout : Filter
for_scout = record { target_agent = some "scout"; include_unrouted = true }

claim_none_iff_example :
    ((try_claim_next "worker:b" for_scout 1000 700 "later" mail).0 ≡ none)
    ↔ ((j : ℕ) → ¬ IsClaimable for_scout 700 mail j)
claim_none_iff_example = claim_none_iff "worker:b" for_scout 1000 700 "later" mail mail-IsWellFormed

only_holder-Settles_example :
    let later = run mail [] in
    let refusal = raised (permission_error "worker:b" 1 "worker:a") in
    (ack_event 1 "done" (some "worker:b") later ≡ refusal)
    × (fail_event 1 "broken" (some "worker:b") later ≡ refusal)
    × (requeue_event 1 (some "worker:b") none later ≡ refusal)
    × Settles
        (ack_event 1 "done" (some "worker:a") later)
        1
        (if is_blank "done" then "DONE" else upper (strip "done"))
        none
        later
unfolding find_lease
only_holder-Settles_example =
    only_holder-Settles held [] mail "done" "broken" "worker:b" none (some "worker:b")
      mail-IsWellFormed refl tt refl (texts_differ _ _ refl) (texts_differ _ _ refl)

settlement_done_example :
    Settles
      (ack_event 1 "DONE" (some "worker:a") mail)
      1
      (if is_blank "DONE" then "DONE" else upper (strip "DONE"))
      none
      mail
    × Settles
        (fail_event 1 "broken" (some "worker:a") mail)
        1
        "FAILED"
        (some (prefix 4000 "broken"))
        mail
    × Settles
        (requeue_event 1 (some "worker:a") (some "later") mail)
        1
        "PENDING"
        (some (prefix 4000 "later"))
        mail
unfolding find_lease
settlement_done_example =
    settlement_done 1 "DONE" "broken" (some "later") (some "worker:a") mail
      (inr (inr (held, refl, refl)))

late_failure_overwrites_example :
    (acked failed : Store) × (ack_event 1 "DONE" (some "worker:a") mail ≡ ok acked)
    × (status_of (find_event 1 acked.events) ≡ some "DONE")
    × (fail_event 1 "broken" (some "worker:z") acked ≡ ok failed)
    × (status_of (find_event 1 failed.events) ≡ some "FAILED")
unfolding find_lease find_event is_blank upper
late_failure_overwrites_example =
    late_failure_overwrites held "DONE" "broken" (some "worker:z") mail (sample_row 1 "CLAIMED")
      refl refl (texts_differ _ _ refl)

third-IsSettled : IsSettled 3 "DONE" mail
unfolding find_lease find_event
third-IsSettled = record { final = refl; unleased = refl }

IsSettled-not_redelivered_example :
    IsSettled 3 "DONE" (run mail refused_ack) × (some (pos 2) ≢ some (pos 3))
IsSettled-not_redelivered_example =
    IsSettled-not_redelivered 3 "DONE" refused_ack mail "worker:b" for_forge 1000 700 "later"
      {e = second} mail-IsWellFormed (texts_differ _ _ refl) third-IsSettled
      ((λ e. omega (arith, e)), tt) second_claimed_after

-- a store in which the key k-1 is reserved
abbrev reserved : Store
reserved = record mail {
  keys =
      record {
        idempotency_key = "k-1";
        created_ts = "now";
        agent_id = "forge";
        action_type = "WRITE_FILE";
        event_id = none;
        result = none;
      }
      ∷ [];
}

first_reservation :
    reserve_idempotency_key "k-1" "forge" "WRITE_FILE" none "now" mail ≡ ok (true, reserved)
unfolding reserve_idempotency_key find_key strip
first_reservation = refl

reserved_once_example :
    reserve_idempotency_key " k-1 " "scout" "RUN_CMD" none "later" (run reserved by_others)
    ≡ ok (false, run reserved by_others)
unfolding strip
reserved_once_example =
    reserved_once "k-1" " k-1 " "forge" "scout" "WRITE_FILE" "RUN_CMD" none none "now" "later" mail
      reserved true by_others (texts_differ _ _ refl) refl first_reservation

append_get_roundtrip_example :
    (s' : Store) × (append_event (λ v. "value") "now" (is_event sample_event) mail ≡ ok (4, s'))
    × (get_event 4 "later" s'
        ≡ some (record sample_event {
          payload = setdefault "event_id" (int (pos 4)) (
              setdefault "target_agent"
                (str "forge")
                (setdefault "correlation_id" (str "c-1") end));
          event_id = some (pos 4);
          status = "PENDING";
          error = null;
        }))
append_get_roundtrip_example =
    append_get_roundtrip (λ v. "value") "now" "later" sample_event mail {justification = "test"}
      {correlation = "c-1"} {target = "forge"} mail-IsWellFormed (texts_differ _ _ refl)
      (texts_differ _ _ refl) refl (texts_differ _ _ refl) refl (texts_differ _ _ refl) refl
      (texts_differ _ _ refl)

-- a turn in which nobody else commits, at the end of the time
abbrev last_turn : Turn
last_turn = record {
  others = λ s. s;
  now = 700;
  now_text = "later";
  tested = 10;
  before_sleep = 10;
}

polling_ends_example :
    (o : Outcome) × (s' : Store) × (claim_next_event "worker:b" for_scout none 1000 0
        (some 10)
        (last_turn ∷ [])
        mail
      ≡ ok (o, s'))
    × Explains 0 (some 10) (last_turn ∷ []) o
unfolding is_blank strip lstrip rstrip
polling_ends_example =
    polling_ends "worker:b" for_scout none 1000 0 (some 10) (last_turn ∷ []) mail refl
