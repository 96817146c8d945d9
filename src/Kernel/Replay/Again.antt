-- ===== src/Kernel/Replay/Again.antt =====
-- That a replay publishes again what the bus has published.
use app_shak_hq.Prelude.{
  Bool, Bool-cases, List, Option, String, [], ap, arith, eq_iff, false, if◌then◌else◌, inl, inr,
  keep_if, length, map, max, nat_eq, refl, some, string_eq, sym, true, ℕ, ◌++◌, ◌+◌, ◌==◌, ◌∙◌, ◌∷◌,
  ◌≡◌, ◌≤◌,
}
use app_shak_hq.Python.Text.{is_blank, lstrip, rstrip, strip}
use app_shak_hq.Python.Value.{Fields, Value, bool, field, get, get?, or_else, str, truthy}
use app_shak_hq.Kernel.Events.{
  Event, event_dict, indexed_payload, normalize, publish_event, raw_origin, type_text,
}
use app_shak_hq.Kernel.Safeguards.{Library, get_or, printed}
use app_shak_hq.Kernel.State.{AppShakKernel, Outside, publish_raw}
use app_shak_hq.Kernel.Route.Known.{clock_text, raw_type-own, with_published}
use app_shak_hq.Kernel.Route.Stages.{append_assoc}
use app_shak_hq.Kernel.Replay.{
  is_included, load_published_events, replay_each, replay_events, replay_justification,
  replay_payload, replayed_event, select_from,
}
use app_shak_hq.Kernel.Replay.Deque.{append_bounded-last_n, append_nil, last_n, last_n-map}
use app_shak_hq.Kernel.Replay.Marks.{is_mark, justified_entry, kept_entry, marked_entry}
use app_shak_hq.Python.Exec.{ok}

-- the payloads that the log keeps of publications
abbrev pub published : List (String × Fields) → List Fields
published [] = []
published ((kind, payload) ∷ log) =
    if kind == "EVENT_PUBLISHED" then payload ∷ published log else published log

abbrev pub wanted_payload : Library → Option (List String) → Fields → Bool
wanted_payload lib include_types payload =
    is_included include_types (printed lib (get_or "type" (str "") payload))

select_from-last_n :
    (lib : Library) (bound : ℕ) (include_types : Option (List String)) (before : List Fields)
    (log : List (String × Fields))
    → 1 ≤ bound
    → select_from lib bound include_types (last_n bound before) log
      ≡ last_n bound (before ++ keep_if (wanted_payload lib include_types) (published log))
select_from-last_n lib bound include_types before [] room = rw (append_nil before) refl
select_from-last_n lib bound include_types before ((kind, payload) ∷ log) room =
    elim (Bool-cases (kind == "EVENT_PUBLISHED")) [
      | inl is_published ↦ elim (Bool-cases (wanted_payload lib include_types payload)) [
        | inl is_wanted ↦
            rw (is_published, is_wanted)
              (ap (λ selected. select_from lib bound include_types selected log)
                  (append_bounded-last_n bound payload before room)
                ∙ select_from-last_n lib bound include_types (before ++ payload ∷ []) log room
                ∙ ap (last_n bound) (
                    append_assoc before (payload ∷ [])
                      (keep_if (wanted_payload lib include_types) (published log))))
        | inr unwanted ↦
            rw (is_published, unwanted) (select_from-last_n lib bound include_types before log room)
      ]
      | inr another ↦ rw another (select_from-last_n lib bound include_types before log room)
    ]

-- the event that the replay publishes for an event
abbrev pub again : Outside → String → ℕ → Event → Event
again out origin index e = record {
  event_type = e.event_type;
  timestamp = clock_text out;
  origin_id = strip origin;
  payload = indexed_payload index (replay_payload (event_dict e));
}

is_blank-empty : is_blank "" ≡ true
unfolding is_blank strip lstrip rstrip
is_blank-empty = refl

truthy-given : (text : String) → is_blank text ≡ false → truthy (str text) ≡ true
unfolding truthy
truthy-given text given = elim (Bool-cases (text == "")) [
  | inl same ↦
      let nothing : text ≡ "" = (eq_iff text "").0 same in
      let blank : is_blank text ≡ true = ap is_blank nothing ∙ is_blank-empty in cc
  | inr other ↦ rw other refl
]

or_else-truthy : (a b : Value) → truthy a ≡ true → or_else a b ≡ a
unfolding or_else
or_else-truthy a b holds = rw holds refl

raw_origin-given :
    (origin : String) (kind : Value) (d payload : Fields)
    → is_blank origin ≡ false
    → raw_origin (field "type" kind (field "origin_id" (str origin) d)) payload ≡ ok (strip origin)
unfolding get get?
raw_origin-given origin kind d payload given =
    let kept = λ (b : Value). or_else-truthy (str origin) b (truthy-given origin given) in
    rw (raw_origin, kept, kept, given) refl

publish_again :
    (out : Outside) (origin : String) (e : Event) (k : AppShakKernel)
    → is_blank origin ≡ false
    → publish_raw out (replayed_event out origin (event_dict e)) k ≡ (
      ok (again out origin k.bus.next_index e),
      with_published (again out origin k.bus.next_index e) k,
    )
unfolding publish_raw publish_event normalize get get?
publish_again out origin e k given =
    rw (raw_type-own e.event_type, raw_origin-given origin (str (type_text e.event_type))) refl

-- the events that the replay publishes, the first with this index
abbrev pub replayed_from : Outside → String → ℕ → List Event → List Event
replayed_from out origin index [] = []
replayed_from out origin index (e ∷ es) =
    again out origin index e ∷ replayed_from out origin (index + 1) es

replay_each-again :
    (out : Outside) (origin : String) (es : List Event) (replayed : ℕ) (k : AppShakKernel)
    → is_blank origin ≡ false
    → let (r, k') = replay_each out origin (map event_dict es) replayed k in
      (r ≡ ok (replayed + length es))
      × (k'.bus.queue ≡ k.bus.queue ++ replayed_from out origin k.bus.next_index es)
unfolding replay_each
replay_each-again out origin [] replayed k given =
    (ap (λ n. ok n) (omega arith), sym (append_nil k.bus.queue))
replay_each-again out origin (e ∷ es) replayed k given =
    let first = publish_again out origin e k given in
    let rest =
      replay_each-again out origin es (replayed + 1)
        (with_published (again out origin k.bus.next_index e) k) given in
    rw first (
      rest.0 ∙ ap (λ n. ok n) (omega arith),
      rest.1
          ∙ append_assoc k.bus.queue (again out origin k.bus.next_index e ∷ [])
              (replayed_from out origin (k.bus.next_index + 1) es),
    )

-- the events whose type is asked for
abbrev pub is_wanted_event : Option (List String) → Event → Bool
is_wanted_event include_types e = is_included include_types (type_text e.event_type)

wanted-event_dict :
    (lib : Library) (include_types : Option (List String)) (es : List Event)
    → keep_if (wanted_payload lib include_types) (map event_dict es)
      ≡ map event_dict (keep_if (is_wanted_event include_types) es)
unfolding get get?
wanted-event_dict lib include_types [] = refl
wanted-event_dict lib include_types (e ∷ es) = elim (Bool-cases (is_wanted_event include_types e)) [
  | inl wanted ↦ rw (wanted, wanted-event_dict lib include_types es) refl
  | inr unwanted ↦ rw (unwanted, wanted-event_dict lib include_types es) refl
]

-- Where the log holds these events as published, a replay publishes the last of the wanted ones
-- again, up to the limit and at least one: it reports how many, and they stand at the end of the
-- queue in their old order, each with its type and the new origin. None of them is refused. Each is
-- marked as replayed, keeps its justification or has that of a replay where it had none, and has
-- every other entry of its payload, the marks apart, as it was.
pub replay_publishes_again :
    (out : Outside) (limit : ℕ) (include_types : Option (List String)) (origin key : String)
    (es : List Event) (k : AppShakKernel)
    → is_blank origin ≡ false
    → published k.memory.global_log ≡ map event_dict es
    → is_mark key ≡ false
    → let (r, k') = replay_events out limit include_types origin k in
      let chosen = last_n (max 1 limit) (keep_if (is_wanted_event include_types) es) in
      (r ≡ ok (length chosen))
      × (k'.bus.queue ≡ k.bus.queue ++ replayed_from out origin k.bus.next_index chosen)
      × ((index : ℕ) (e : Event)
          → let payload = (again out origin index e).payload in
            (get? "replayed" payload ≡ some (bool true))
            × (get? "prime_directive_justification" payload
                ≡ some
                    (get_or "prime_directive_justification" (str replay_justification) e.payload))
            × (get? key payload ≡ get? key e.payload))
unfolding replay_events
replay_publishes_again out limit include_types origin key es k given logged unmarked =
    let chosen = last_n (max 1 limit) (keep_if (is_wanted_event include_types) es) in
    let loaded : load_published_events out.library limit include_types k.memory.global_log
        ≡ map event_dict chosen =
      select_from-last_n out.library (max 1 limit) include_types [] k.memory.global_log
        (omega arith)
      ∙ ap (λ ps. last_n (max 1 limit) (keep_if (wanted_payload out.library include_types) ps))
          logged
      ∙ ap (last_n (max 1 limit)) (wanted-event_dict out.library include_types es)
      ∙ last_n-map event_dict (max 1 limit) (keep_if (is_wanted_event include_types) es) in
    let (counted, queued) = replay_each-again out origin chosen 0 k given in
    rw loaded (
      counted ∙ ap (λ n. ok n) (omega arith),
      queued,
      λ index e. (marked_entry index e, justified_entry index e, kept_entry key index e unmarked),
    )
