-- ===== src/Substrate/Bus/Refines.antt =====
-- The durable bus refines the queue of Bus/Fifo: what the queue holds is the pending rows of the
-- mail store of appshak_substrate/mailstore_sqlite.py.
use app_shak_hq.Prelude.{
  All, Bool, Bool-cases, List, Option, Option-cases, String, [], ap, arith, false, inl, inr,
  keep_if, nat_eq, none, refl, some, some_inj, string_eq, sym, true, ℕ, ◌++◌, ◌+◌, ◌<◌, ◌==◌, ◌∙◌,
  ◌∷◌, ◌≡◌, ◌≤◌, ◌⊎◌,
}
use app_shak_hq.Substrate.Types.{EventRow, RawEvent, SubstrateEvent, coerce, from_row, text_or}
use app_shak_hq.Substrate.MailStore.Tables.{Lease, Store, find_event, find_lease, update_event}
use app_shak_hq.Substrate.MailStore.Claim.{
  Filter, Outcome, Turn, back_to_pending, claim_loop, claim_next_event, claimed, deadline_of,
  drop_expired, first_eligible, has_expired, is_eligible, lease_window, out_of_time,
  release_expired_leases, stripped, timed_out, try_claim_next, waiting,
}
use app_shak_hq.Substrate.MailStore.Lookup.{IdsIn}
use app_shak_hq.Substrate.MailStore.Select.{find_event_range}
use app_shak_hq.Substrate.MailStore.Invariant.{
  IsWellFormed, claims, insert_event-IsWellFormed, lent, status_of, try_claim_next-eq,
}
use app_shak_hq.Substrate.Bus.Fifo.{
  BusCall, Queue, Seen, bus_run, bus_step, fifo_run, fifo_step, nothing, put_event, seen_outcome,
  take_event,
}
use app_shak_hq.Python.Text.{is_blank, strip}
use app_shak_hq.Python.Value.{Value}
use app_shak_hq.Python.Exec.{Result-cases}
use app_shak_hq.Substrate.MailStore.Events.{append_event, insert_event, row_of}
use app_shak_hq.Substrate.Bus.{DurableEventBus, get_next, indexed_outcome, publish}
use app_shak_hq.Substrate.MailStore.History.{step, step-IsWellFormed, tries}

abbrev is_pending : EventRow → Bool
is_pending e = e.status == "PENDING"

-- the queue that a store represents
abbrev pub queue_of : Store → Queue
queue_of s = record { waiting_rows = keep_if is_pending s.events; next_id = s.next_event }

-- every lease lasts beyond the time
abbrev pub LeasesOutlast : ℕ → Store → Type 0
LeasesOutlast horizon s = All (λ l. horizon < l.lease_expiry) s.leases

-- The call is made by the time, a lease that it takes lasts beyond it, and no other connection
-- commits meanwhile.
abbrev pub IsQuiet : ℕ → ℕ → BusCall → Type 0
IsQuiet horizon window (put_event now raw) = Unit {0}
IsQuiet horizon window (take_event start timeout turn) =
    ((s : Store) → turn.others s ≡ s) × (turn.now ≤ horizon) × (horizon < turn.now + window)

none_expired :
    (horizon now : ℕ) (ls : List Lease)
    → All (λ l. horizon < l.lease_expiry) ls
    → now ≤ horizon
    → (drop_expired now ls ≡ ls) × ((j : ℕ) → has_expired now ls j ≡ false)
unfolding drop_expired has_expired
none_expired horizon now [] live h = (refl, λ j. refl)
none_expired horizon now (l ∷ ls) live h =
    let rest = none_expired horizon now ls live.1 h in
    (ground (arith, rest.0), λ j. ground (arith, rest.1 j))

none_back :
    (now : ℕ) (ls : List Lease) (es : List EventRow)
    → ((j : ℕ) → has_expired now ls j ≡ false)
    → back_to_pending now ls es ≡ es
unfolding back_to_pending
none_back now ls [] h = refl
none_back now ls (e ∷ es) h = rw (h e.id, none_back now ls es h) refl

release_nothing :
    (horizon now : ℕ) (s : Store)
    → LeasesOutlast horizon s
    → now ≤ horizon
    → release_expired_leases now s ≡ s
unfolding release_expired_leases
release_nothing horizon now s live h =
    let e = none_expired horizon now s.leases live h in
    rw (e.0, none_back now s.leases s.events e.1) refl

keep_if-append :
    (test : EventRow → Bool) (es fs : List EventRow)
    → keep_if test (es ++ fs) ≡ keep_if test es ++ keep_if test fs
keep_if-append test [] fs = refl
keep_if-append test (e ∷ es) fs = ground (arith, keep_if-append test es fs)

update_event_outside :
    (f : EventRow → EventRow) (i lo hi : ℕ) (es : List EventRow)
    → IdsIn lo hi es
    → i < lo
    → update_event i f es ≡ es
unfolding update_event
update_event_outside f i lo hi [] r h = refl
update_event_outside f i lo hi (e ∷ es) r h =
    ground (arith, update_event_outside f i (e.id + 1) hi es r.1)

head_above :
    (lo hi : ℕ) (es : List EventRow) {row : EventRow} {rows : List EventRow}
    → IdsIn lo hi es
    → keep_if is_pending es ≡ row ∷ rows
    → lo ≤ row.id
head_above lo hi [] r h = cc
head_above lo hi (e ∷ es) {row} {rows} r h = elim (Bool-cases (is_pending e)) [
  | inl waits ↦ ground arith
  | inr gone ↦
      let above = head_above (e.id + 1) hi es {row = row} {rows = rows} r.1 (ground arith) in
      omega (arith, r.0, above)
]

-- Setting the status of the first pending row takes it out.
take_head :
    (f : EventRow → EventRow) (lo hi : ℕ) (es : List EventRow) {row : EventRow}
    {rows : List EventRow}
    → ((e : EventRow) → is_pending (f e) ≡ false)
    → IdsIn lo hi es
    → keep_if is_pending es ≡ row ∷ rows
    → keep_if is_pending (update_event row.id f es) ≡ rows
unfolding update_event
take_head f lo hi [] k r h = cc
take_head f lo hi (e ∷ es) {row} {rows} k r h = elim (Bool-cases (is_pending e)) [
  | inl waits ↦ ground (arith, k e, update_event_outside f e.id (e.id + 1) hi es r.1)
  | inr gone ↦
      let tail : keep_if is_pending es ≡ row ∷ rows = ground arith in
      let above = head_above (e.id + 1) hi es {row = row} {rows = rows} r.1 tail in
      ground (arith, take_head f (e.id + 1) hi es {row = row} {rows = rows} k r.1 tail)
]

abbrev first : List EventRow → Option EventRow
first [] = none
first (e ∷ es) = some e

-- what waits is not leased
abbrev WaitsFree : List Lease → EventRow → Type 0
WaitsFree ls e = is_pending e ≡ true → find_lease e.id ls ≡ none

first_eligible-eq :
    (q : Filter) (ls : List Lease) (es : List EventRow)
    → q.target_agent ≡ none
    → All (WaitsFree ls) es
    → first_eligible q ls es ≡ first (keep_if is_pending es)
unfolding first_eligible is_eligible
first_eligible-eq q ls [] t free = refl
first_eligible-eq q ls (e ∷ es) t free = elim (Bool-cases (is_pending e)) [
  | inl waits ↦ rw (waits, free.0 waits, t) refl
  | inr gone ↦ rw gone (first_eligible-eq q ls es t free.1)
]

All-found :
    {P : EventRow → Type 0} (lo hi : ℕ) (es : List EventRow)
    → IdsIn lo hi es
    → ((e : EventRow) → find_event e.id es ≡ some e → P e)
    → All P es
unfolding find_event
All-found lo hi [] r h = tt
All-found {P} lo hi (x ∷ es) r h = (
  h x (ground arith),
  All-found {P = P} (x.id + 1) hi es r.1
      λ e found. h e (ground (arith, find_event_range e.id (x.id + 1) hi es r.1 found)),
)

not_pending : (e : EventRow) → status_of (some e) ≡ some "CLAIMED" → is_pending e ≡ false
not_pending e h = let claimed_now : e.status ≡ "CLAIMED" = some_inj h in rw claimed_now refl

waits_free : (s : Store) → IsWellFormed s → All (WaitsFree s.leases) s.events
waits_free s w = All-found 1 s.next_event s.events w.rising λ e found waits.
    elim (Option-cases (find_lease e.id s.leases)) [
      | inl nobody ↦ nobody
      | inr (l, leased) ↦
          let gone = not_pending e (ap status_of (sym found) ∙ w.leased_claimed e.id l leased) in cc
    ]

-- A claim that looks at a quiet store takes the oldest pending row.
quiet_claim :
    (consumer : String) (q : Filter) (window now horizon : ℕ) (text : String) (s : Store)
    → q.target_agent ≡ none
    → IsWellFormed s
    → LeasesOutlast horizon s
    → now ≤ horizon
    → try_claim_next consumer q window now text s
      ≡ claims consumer now window text s (first (keep_if is_pending s.events))
quiet_claim consumer q window now horizon text s t w live h =
    rw
      (
        try_claim_next-eq consumer q window now text s w,
        release_nothing horizon now s live h,
        first_eligible-eq q s.leases s.events t (waits_free s w),
      )
      refl

-- what the refinement keeps of the store
record IsQuietStore (horizon : ℕ) (s : Store) : Type 0 where
  formed : IsWellFormed s
  live : LeasesOutlast horizon s

append-LeasesOutlast :
    (horizon : ℕ) (ls : List Lease) (l : Lease)
    → All (λ k. horizon < k.lease_expiry) ls
    → horizon < l.lease_expiry
    → All (λ k. horizon < k.lease_expiry) (ls ++ l ∷ [])
append-LeasesOutlast horizon [] l live h = (h, tt)
append-LeasesOutlast horizon (k ∷ ls) l live h =
    (live.0, append-LeasesOutlast horizon ls l live.1 h)

queue_of-lent :
    (consumer : String) (now window : ℕ) (s : Store) {row : EventRow} {rows : List EventRow}
    → IsWellFormed s
    → keep_if is_pending s.events ≡ row ∷ rows
    → queue_of (lent consumer now window row s)
      ≡ record { waiting_rows = rows; next_id = s.next_event }
queue_of-lent consumer now window s {row} {rows} w h =
    rw
      (take_head (λ e. record e { status = "CLAIMED" }) 1 s.next_event s.events {row = row}
        {rows = rows} (λ e. refl) w.rising h)
      refl

Rows-cases :
    (rows : List EventRow)
    → (rows ≡ []) ⊎ ((row : EventRow) × (rest : List EventRow) × (rows ≡ row ∷ rest))
Rows-cases [] = inl refl
Rows-cases (row ∷ rest) = inr (row, rest, refl)

-- one call of the bus beside the same call of the queue
abbrev Follows : ℕ → Seen × Store → Seen × Queue → Type 0
Follows horizon (seen, s) (seen', q) = (seen ≡ seen') × (queue_of s ≡ q) × IsQuietStore horizon s

module _ (c : String) (q : Filter) (window : ℕ) (deadline : Option ℕ) (turn : Turn)
    (s : Store) where
  once_found :
      {e : SubstrateEvent} {s' : Store}
      → try_claim_next c q window turn.now turn.now_text (turn.others s) ≡ (some e, s')
      → claim_loop c q window deadline (turn ∷ []) s ≡ (claimed e, s')
  unfolding claim_loop
  once_found h = rw (claim_loop, ap (λ r. r.0) h, ap (λ r. r.1) h) refl

  once_empty :
      {s' : Store}
      → try_claim_next c q window turn.now turn.now_text (turn.others s) ≡ (none, s')
      → (o : Outcome) × (claim_loop c q window deadline (turn ∷ []) s ≡ (o, s'))
        × (seen_outcome (indexed_outcome o) ≡ nothing)
  unfolding claim_loop
  once_empty h = elim (Bool-cases (out_of_time turn deadline)) [
    | inl late ↦ (timed_out, rw (claim_loop, ap (λ r. r.0) h, ap (λ r. r.1) h, late) refl, refl)
    | inr early ↦ (waiting, rw (claim_loop, ap (λ r. r.0) h, ap (λ r. r.1) h, early) refl, refl)
  ]

module _ (show : Value → String) (bus : DurableEventBus) (own horizon : ℕ) where
  queue_of-insert :
      (e : SubstrateEvent) (s : Store)
      → queue_of (insert_event e s).1 ≡ record {
        waiting_rows = keep_if is_pending s.events ++ row_of s.next_event e ∷ [];
        next_id = s.next_event + 1;
      }
  unfolding insert_event row_of
  queue_of-insert e s = rw (keep_if-append is_pending s.events (row_of s.next_event e ∷ [])) refl

  quiet-insert :
      (e : SubstrateEvent) (s : Store)
      → IsQuietStore horizon s
      → IsQuietStore horizon (insert_event e s).1
  unfolding insert_event
  quiet-insert e s k = record { formed = insert_event-IsWellFormed e s k.formed; live = k.live }

  kept : String → SubstrateEvent → SubstrateEvent
  kept now e = record e { timestamp = text_or e.timestamp now; status = text_or e.status "PENDING" }

  put-Follows :
      (now : String) (raw : RawEvent) (s : Store)
      → IsQuietStore horizon s
      → Follows horizon
          (bus_step show bus own (put_event now raw) s)
          (fifo_step show (put_event now raw) (queue_of s))
  unfolding bus_step fifo_step publish append_event coerce insert_event kept
  put-Follows now raw s k = elim (Result-cases (coerce show now raw)) [
    | inl (e, made) ↦ rw made (refl, queue_of-insert (kept now e) s, quiet-insert (kept now e) s k)
    | inr (e, bad) ↦ rw bad (refl, refl, k)
  ]

  quiet-lent :
      (c : String) (q : Filter) (window now : ℕ) (text : String) (s : Store) {row : EventRow}
      {rows : List EventRow}
      → q.target_agent ≡ none
      → IsQuietStore horizon s
      → now ≤ horizon
      → horizon < now + window
      → keep_if is_pending s.events ≡ row ∷ rows
      → IsQuietStore horizon (lent c now window row s)
  unfolding step
  quiet-lent c q window now text s {row} {rows} t k early late here =
      let formed : IsWellFormed (try_claim_next c q window now text s).1 =
        step-IsWellFormed (tries c q window now text) s k.formed in
      let eq = quiet_claim c q window now horizon text s t k.formed k.live early in
      record {
        formed = rw (eq, here) at formed;
        live =
            append-LeasesOutlast horizon s.leases
              (record {
                event_id = row.id;
                claimed_by = c;
                claim_ts = now;
                lease_expiry = now + window;
              })
              k.live late;
      }

  take-Follows :
      (start : ℕ) (timeout : Option ℕ) (turn : Turn) (s : Store)
      → is_blank bus.consumer_id ≡ false
      → bus.target_agent ≡ none
      → IsQuiet horizon (lease_window (some bus.lease_seconds) own) (take_event start timeout turn)
      → IsQuietStore horizon s
      → Follows horizon
          (bus_step show bus own (take_event start timeout turn) s)
          (fifo_step show (take_event start timeout turn) (queue_of s))
  unfolding bus_step fifo_step get_next claim_next_event
  take-Follows start timeout turn s named all quiet k =
      let c = strip bus.consumer_id in
      let q : Filter = record {
        target_agent = stripped bus.target_agent;
        include_unrouted = bus.include_unrouted;
      } in
      let window = lease_window (some bus.lease_seconds) own in
      let everything : q.target_agent ≡ none = rw all refl in
      let found =
        quiet_claim c q window turn.now horizon turn.now_text s everything k.formed k.live
          quiet.1 in
      elim (Rows-cases (keep_if is_pending s.events)) [
        | inl blank ↦
            let (o, looped, quietly) =
              once_empty c q window (deadline_of start timeout) turn s {s' = s}
                (rw (quiet.0 s, found, blank) refl) in
            rw (named, looped, quietly, blank) (refl, refl, k)
        | inr (row, rest, here) ↦
            let looped =
              once_found c q window (deadline_of start timeout) turn s
                {e = from_row row turn.now_text} {s' = lent c turn.now window row s}
                (rw (quiet.0 s, found, here) refl) in
            rw (named, looped, here)
              (
                refl,
                queue_of-lent c turn.now window s {row = row} {rows = rest} k.formed here,
                quiet-lent c q window turn.now turn.now_text s {row = row} {rows = rest} everything
                    k quiet.1 quiet.2 here,
              )
      ]

  -- On a well-formed store whose leases all last beyond a time, the durable bus of a named consumer
  -- without a target shows its callers the same as a first-in first-out queue of the store's
  -- pending rows: for every sequence of publications and single attempts to take an event that are
  -- made by that time, that nothing else interrupts and whose own leases last beyond it, the
  -- returned events, the empty answers and the errors agree.
  pub bus_run-fifo_run :
      (cs : List BusCall) (s : Store)
      → is_blank bus.consumer_id ≡ false
      → bus.target_agent ≡ none
      → IsWellFormed s
      → LeasesOutlast horizon s
      → All (IsQuiet horizon (lease_window (some bus.lease_seconds) own)) cs
      → bus_run show bus own cs s ≡ fifo_run show cs (queue_of s)
  unfolding bus_run fifo_run
  bus_run-fifo_run cs s named all w live quiet = go cs s quiet (record { formed = w; live = live })
    where
      follows :
          (c : BusCall) (s : Store)
          → IsQuiet horizon (lease_window (some bus.lease_seconds) own) c
          → IsQuietStore horizon s
          → Follows horizon (bus_step show bus own c s) (fifo_step show c (queue_of s))
      follows (put_event now raw) s h k = put-Follows now raw s k
      follows (take_event start timeout turn) s h k =
          take-Follows start timeout turn s named all h k

      go :
          (cs : List BusCall) (s : Store)
          → All (IsQuiet horizon (lease_window (some bus.lease_seconds) own)) cs
          → IsQuietStore horizon s
          → bus_run show bus own cs s ≡ fifo_run show cs (queue_of s)
      go [] s h k = refl
      go (c ∷ cs) s h k =
          let f = follows c s h.0 k in
          let rest = go cs (bus_step show bus own c s).1 h.1 f.2 in rw (rest, f.1, f.0) refl
