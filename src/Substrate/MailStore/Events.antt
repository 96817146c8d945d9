-- ===== src/Substrate/MailStore/Events.antt =====
-- Appending and reading events.
use app_shak_hq.Prelude.{
  Bool, List, Option, String, [], if◌then◌else◌, keep_if, map, nat_eq, none, some, string_eq, true,
  ℕ, ◌++◌, ◌+◌, ◌==◌, ◌∷◌,
}
use app_shak_hq.Python.Text.{filled}
use app_shak_hq.Python.Value.{Fields, Value, as_str, get, nonblank, setdefault, str}
use app_shak_hq.Python.Exec.{Result, ok, ◌>>=◌}
use app_shak_hq.Substrate.Types.{EventRow, RawEvent, SubstrateEvent, coerce, from_row}
use app_shak_hq.Substrate.MailStore.Tables.{Store, find_event}

-- `if text: payload.setdefault(key, text)`
abbrev set_filled : String → Option String → Fields → Fields
set_filled key none d = d
set_filled key (some s) d = setdefault key (str s) d

-- the event's own text, or else the payload's
abbrev pub filled_or : Option String → Option String → Option String
filled_or (some s) fallback = some s
filled_or none fallback = fallback

-- the payload that is written, with the event's correlation and target
unfoldable pub stored_payload : SubstrateEvent → Fields
stored_payload e =
    set_filled "target_agent" (filled e.target_agent)
      (set_filled "correlation_id" (filled e.correlation_id) e.payload)

-- the row that is inserted for a normalized event
unfoldable pub row_of : ℕ → SubstrateEvent → EventRow
unfolding stored_payload
row_of id e =
    let payload = stored_payload e in
    record {
      id = id;
      ts = e.timestamp;
      event_type = e.event_type;
      origin_id = e.origin_id;
      target_agent = filled_or (filled e.target_agent) (nonblank (get "target_agent" payload));
      payload = payload;
      justification =
          filled_or (filled e.justification) (as_str (get "prime_directive_justification" payload));
      status = "PENDING";
      error = none;
      correlation_id =
          filled_or (filled e.correlation_id) (nonblank (get "correlation_id" payload));
    }

unfoldable pub insert_event : SubstrateEvent → Store → ℕ × Store
unfolding row_of
insert_event e s = (
  s.next_event,
  record s { events = s.events ++ row_of s.next_event e ∷ []; next_event = s.next_event + 1 },
)

unfoldable pub append_event : (Value → String) → String → RawEvent → Store → Result (ℕ × Store)
unfolding insert_event
append_event show now raw s = do normalized ← coerce show now raw; ok (insert_event normalized s)

unfoldable pub get_event : ℕ → String → Store → Option SubstrateEvent
get_event id now s = elim (find_event id s.events) [
  | none ↦ none
  | some row ↦ some (from_row row now)
]

abbrev pub has_status : Option String → EventRow → Bool
has_status none row = true
has_status (some status) row = row.status == status

unfoldable pub list_events : Option String → String → Store → List SubstrateEvent
list_events status now s = map (λ row. from_row row now) (keep_if (has_status status) s.events)

-- One more row of the group. The method returns a dictionary: the order of its keys, that of the
-- status names, is not modelled.
unfoldable pub bump : String → List (String × ℕ) → List (String × ℕ)
bump k [] = (k, 1) ∷ []
bump k ((j, n) ∷ m) = if j == k then (j, n + 1) ∷ m else (j, n) ∷ bump k m

unfoldable pub count_statuses : List EventRow → List (String × ℕ)
count_statuses [] = []
count_statuses (row ∷ rows) = bump row.status (count_statuses rows)

unfoldable pub status_counts : Store → List (String × ℕ)
unfolding count_statuses
status_counts s = count_statuses s.events

-- `counts.get(status, 0)`
unfoldable pub count_of : String → List (String × ℕ) → ℕ
count_of k [] = 0
count_of k ((j, n) ∷ m) = if j == k then n else count_of k m
