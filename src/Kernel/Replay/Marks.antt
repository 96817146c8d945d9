-- ===== src/Kernel/Replay/Marks.antt =====
-- The payload of a replayed event in appshak/kernel.py, entry by entry.
use app_shak_hq.Prelude.{
  Bool, String, arith, false, if◌then◌else◌, nat_eq, none, some, string_eq, true, ℕ, ◌==◌, ◌||◌,
  ◌∙◌, ◌≡◌,
}
use app_shak_hq.Python.Value.{
  Fields, Value, bool, get, get?, get?-put, get?-setdefault, int, pos, put, str,
}
use app_shak_hq.Kernel.Events.{Event, event_dict, indexed_payload}
use app_shak_hq.Kernel.Safeguards.{get_or}
use app_shak_hq.Kernel.Replay.{replay_justification, replay_payload}

-- the entries of a payload that a replay and the bus may set
abbrev pub is_mark : String → Bool
is_mark key =
    "replayed" == key
    || "replayed_from_timestamp" == key
    || "prime_directive_justification" == key
    || "queue_index" == key

-- the payload with the marks of a replay only
abbrev marked_payload : Event → Fields
marked_payload e =
    put "replayed_from_timestamp" (str e.timestamp) (put "replayed" (bool true) e.payload)

abbrev justification_kept : Event → Value
justification_kept e =
    get_or "prime_directive_justification" (str replay_justification) (marked_payload e)

replayed_entry :
    (key : String) (index : ℕ) (e : Event)
    → get? key (indexed_payload index (replay_payload (event_dict e)))
      ≡ (elim (get? key
          (put "prime_directive_justification" (justification_kept e) (marked_payload e))) [
            | some w ↦ some w
            | none ↦ if "queue_index" == key then some (int (pos index)) else none
          ])
unfolding get get?
replayed_entry key index e =
    get?-setdefault "queue_index" key (int (pos index))
      (put "prime_directive_justification" (justification_kept e) (marked_payload e))

pub kept_entry :
    (key : String) (index : ℕ) (e : Event)
    → is_mark key ≡ false
    → get? key (indexed_payload index (replay_payload (event_dict e))) ≡ get? key e.payload
kept_entry key index e unmarked =
    replayed_entry key index e
    ∙ ground (
      arith,
      get?-put "prime_directive_justification" key (justification_kept e) (marked_payload e),
      get?-put "replayed_from_timestamp" key (str e.timestamp)
          (put "replayed" (bool true) e.payload),
      get?-put "replayed" key (bool true) e.payload,
    )

pub marked_entry :
    (index : ℕ) (e : Event)
    → get? "replayed" (indexed_payload index (replay_payload (event_dict e))) ≡ some (bool true)
marked_entry index e =
    replayed_entry "replayed" index e
    ∙ ground (
      arith,
      get?-put "prime_directive_justification" "replayed" (justification_kept e) (marked_payload e),
      get?-put "replayed_from_timestamp" "replayed" (str e.timestamp)
          (put "replayed" (bool true) e.payload),
      get?-put "replayed" "replayed" (bool true) e.payload,
    )

pub justified_entry :
    (index : ℕ) (e : Event)
    → get? "prime_directive_justification" (indexed_payload index (replay_payload (event_dict e)))
      ≡ some (get_or "prime_directive_justification" (str replay_justification) e.payload)
justified_entry index e =
    replayed_entry "prime_directive_justification" index e
    ∙ ground (
      arith,
      get?-put "prime_directive_justification" "prime_directive_justification"
          (justification_kept e) (marked_payload e),
      get?-put "replayed_from_timestamp" "prime_directive_justification" (str e.timestamp)
          (put "replayed" (bool true) e.payload),
      get?-put "replayed" "prime_directive_justification" (bool true) e.payload,
    )
