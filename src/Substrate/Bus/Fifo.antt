-- ===== src/Substrate/Bus/Fifo.antt =====
-- What appshak_substrate/bus_adapter.py promises to one consumer of all events while no lease runs
-- out: a queue, first in first out, with no tables, leases or statuses.
use app_shak_hq.Prelude.{List, Option, String, [], some, ℕ, ◌++◌, ◌+◌, ◌∷◌}
use app_shak_hq.Python.Value.{Value, pos}
use app_shak_hq.Python.Exec.{Error, Result, ok, raised}
use app_shak_hq.Substrate.Types.{EventRow, RawEvent, SubstrateEvent, coerce, from_row, text_or}
use app_shak_hq.Substrate.MailStore.Tables.{Store}
use app_shak_hq.Substrate.MailStore.Events.{row_of}
use app_shak_hq.Substrate.MailStore.Claim.{Outcome, Turn, claimed, timed_out, waiting}
use app_shak_hq.Substrate.Bus.{DurableEventBus, get_next, indexed, numbered_payload, publish}

-- one call: an event is published at a time, or the consumer asks for one, in a single attempt
pub data BusCall : Type 0 where
  put_event : String → RawEvent → BusCall
  take_event : (start : ℕ) → (timeout : Option ℕ) → (turn : Turn) → BusCall

-- what the caller sees of it
pub data Seen : Type 0 where
  published : SubstrateEvent → Seen
  delivered : SubstrateEvent → Seen
  nothing : Seen
  refused : Error → Seen

-- the events that wait, the oldest first, and the number of the next
pub record Queue : Type 0 where
  pub waiting_rows : List EventRow
  pub next_id : ℕ

abbrev seen_put : Store → Result (SubstrateEvent × List (ℕ × SubstrateEvent) × Store) → Seen × Store
seen_put s (ok (e, calls, s')) = (published e, s')
seen_put s (raised e) = (refused e, s)

abbrev pub seen_outcome : Outcome → Seen
seen_outcome (claimed e) = delivered e
seen_outcome timed_out = nothing
seen_outcome waiting = nothing

abbrev seen_take : Store → Result (Outcome × Store) → Seen × Store
seen_take s (ok (o, s')) = (seen_outcome o, s')
seen_take s (raised e) = (refused e, s)

module _ (show : Value → String) where
  -- the event that is published, and what of it is queued
  abbrev put_normalized : String → SubstrateEvent → Queue → Seen × Queue
  put_normalized now e q =
      let id = pos q.next_id in
      let kept : SubstrateEvent = record e {
        timestamp = text_or e.timestamp now;
        status = text_or e.status "PENDING";
      } in
      (
        published (record e { event_id = some id; payload = numbered_payload id e.payload }),
        record {
          waiting_rows = q.waiting_rows ++ row_of q.next_id kept ∷ [];
          next_id = q.next_id + 1;
        },
      )

  abbrev put_result : String → Queue → Result SubstrateEvent → Seen × Queue
  put_result now q (ok e) = put_normalized now e q
  put_result now q (raised e) = (refused e, q)

  abbrev pop : String → Queue → List EventRow → Seen × Queue
  pop now q [] = (nothing, q)
  pop now q (row ∷ rows) =
      (delivered (indexed (from_row row now)), record { waiting_rows = rows; next_id = q.next_id })

  unfoldable pub fifo_step : BusCall → Queue → Seen × Queue
  fifo_step (put_event now raw) q = put_result now q (coerce show now raw)
  fifo_step (take_event start timeout turn) q = pop turn.now_text q q.waiting_rows

  unfoldable pub fifo_run : List BusCall → Queue → List Seen
  unfolding fifo_step
  fifo_run [] q = []
  fifo_run (c ∷ cs) q = let (seen, q') = fifo_step c q in seen ∷ fifo_run cs q'

  module _ (bus : DurableEventBus) (own : ℕ) where
    -- the same calls, made of the durable bus
    unfoldable pub bus_step : BusCall → Store → Seen × Store
    bus_step (put_event now raw) s = seen_put s (publish show now bus raw s)
    bus_step (take_event start timeout turn) s =
        seen_take s (get_next bus own start timeout (turn ∷ []) s)

    unfoldable pub bus_run : List BusCall → Store → List Seen
    unfolding bus_step
    bus_run [] s = []
    bus_run (c ∷ cs) s = let (seen, s') = bus_step c s in seen ∷ bus_run cs s'
