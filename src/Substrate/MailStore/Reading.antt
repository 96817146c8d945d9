-- ===== src/Substrate/MailStore/Reading.antt =====
-- What is read back of what was appended, the counts by status, and the end of the polling loop.
use app_shak_hq.Prelude.{
  All, Bool-cases, List, Option, Option-cases, String, [], ap, arith, eq_iff, false, if◌then◌else◌,
  inl, inr, keep_if, leb, length, map, nat_eq, none, refl, some, string_eq, suc, sym, true, ℕ, ◌++◌,
  ◌+◌, ◌==◌, ◌∙◌, ◌∷◌, ◌≡◌, ◌≢◌, ◌≤◌, ◌⊎◌,
}
use app_shak_hq.Python.Text.{is_blank, strip}
use app_shak_hq.Python.Value.{Value, int, null, pos, setdefault, str}
use app_shak_hq.Python.Exec.{ok}
use app_shak_hq.Substrate.Types.{EventRow, SubstrateEvent, coerce, from_row, is_event, text_or}
use app_shak_hq.Substrate.MailStore.Tables.{Store, find_event}
use app_shak_hq.Substrate.MailStore.Events.{
  append_event, bump, count_of, count_statuses, get_event, has_status, insert_event, list_events,
  row_of, status_counts,
}
use app_shak_hq.Substrate.MailStore.Invariant.{IsWellFormed}
use app_shak_hq.Substrate.MailStore.Claim.{
  Filter, Outcome, Turn, claim_loop, claim_next_event, claimed, deadline_of, lease_window,
  out_of_time, stripped, timed_out, try_claim_next, waiting,
}
use app_shak_hq.Substrate.MailStore.Lookup.{find_event-append, find_event_fresh}

-- On a well-formed store, an event with a time, an origin, a justification, a correlation and a
-- target (none of them empty) that is appended is read back under the id that the append
-- returned: with the same type, origin, time, justification, correlation and target, PENDING and
-- without an error, and with the payload to which the correlation, the target and the id have
-- been added where they were missing.
pub append_get_roundtrip :
    (show : Value → String) (now later : String) (e : SubstrateEvent) (s : Store)
    {justification correlation target : String}
    → IsWellFormed s
    → e.timestamp ≢ ""
    → e.origin_id ≢ ""
    → e.justification ≡ some justification
    → justification ≢ ""
    → e.correlation_id ≡ some correlation
    → correlation ≢ ""
    → e.target_agent ≡ some target
    → target ≢ ""
    → (s' : Store) × (append_event show now (is_event e) s ≡ ok (s.next_event, s'))
      × (get_event s.next_event later s'
          ≡ some (record e {
            payload = setdefault "event_id" (int (pos s.next_event)) (
                setdefault "target_agent"
                  (str target)
                  (setdefault "correlation_id" (str correlation) e.payload));
            event_id = some (pos s.next_event);
            status = "PENDING";
            error = null;
          }))
unfolding append_event coerce get_event from_row insert_event
append_get_roundtrip show now later e s {justification} {correlation} {target} w ht ho hj j hc c hta
      t =
    let normalized : SubstrateEvent = record e {
      timestamp = text_or e.timestamp now;
      status = text_or e.status "PENDING";
    } in
    let fresh = find_event_fresh s.next_event 1 s.next_event s.events w.rising (omega arith) in
    let row = row_of s.next_event normalized in
    let there : find_event s.next_event (s.events ++ row ∷ []) ≡ some row =
      rw (find_event-append, fresh) (unfold row_of in ground arith) in
    (
      (insert_event normalized s).1,
      refl,
      rw (there, get_event)
          (ground (
            arith,
            eq_iff e.timestamp "",
            eq_iff e.origin_id "",
            eq_iff justification "",
            eq_iff correlation "",
            eq_iff target "",
            hj,
            hc,
            hta,
          )),
    )

count_of-bump :
    (k j : String) (m : List (String × ℕ))
    → count_of k (bump j m) ≡ (if j == k then count_of k m + 1 else count_of k m)
unfolding count_of bump
count_of-bump k j [] = ground arith
count_of-bump k j ((i, n) ∷ m) =
    ground (arith, eq_iff i j, eq_iff i k, eq_iff j k, count_of-bump k j m)

count_rows :
    (k : String) (rows : List EventRow)
    → count_of k (count_statuses rows) ≡ length (keep_if (has_status (some k)) rows)
unfolding count_statuses count_of
count_rows k [] = refl
count_rows k (row ∷ rows) =
    ground (arith, count_of-bump k row.status (count_statuses rows), count_rows k rows)

length-map {ℓ κ} :
    {A : Type ℓ} {B : Type κ} (f : A → B) (xs : List A) → length (map f xs) ≡ length xs
length-map f [] = refl
length-map f (x ∷ xs) = ap suc (length-map f xs)

-- The count of each status is the number of events that a listing by that status returns.
pub counts_agree_with_listing :
    (k now : String) (s : Store)
    → count_of k (status_counts s) ≡ length (list_events (some k) now s)
unfolding status_counts list_events
counts_agree_with_listing k now s =
    count_rows k s.events ∙ sym (length-map _ (keep_if (has_status (some k)) s.events))

-- The turn has reached the deadline by the time of one of its two tests.
abbrev pub Reached : ℕ → Option ℕ → Turn → Type 0
Reached start none t = ⊥
Reached start (some timeout) t = (start + timeout ≤ t.tested) ⊎ (start + timeout ≤ t.before_sleep)

-- some turn has the property
abbrev pub Some : (Turn → Type 0) → List Turn → Type 0
Some P [] = ⊥
Some P (t ∷ ts) = P t ⊎ Some P ts

-- what the turns that are given say of the outcome
abbrev pub Explains : ℕ → Option ℕ → List Turn → Outcome → Type 0
Explains start timeout ts (claimed e) = Unit {0}
Explains start timeout ts timed_out = Some (Reached start timeout) ts
Explains start timeout ts waiting = All (λ t. Reached start timeout t → ⊥) ts

Reached-cases :
    (start : ℕ) (timeout : Option ℕ) (t : Turn)
    → ((out_of_time t (deadline_of start timeout) ≡ true) × Reached start timeout t)
      ⊎ ((out_of_time t (deadline_of start timeout) ≡ false) × (Reached start timeout t → ⊥))
Reached-cases start none t = inr (refl, λ h. h)
Reached-cases start (some timeout) t = elim (Bool-cases (leb (start + timeout) t.tested)) [
  | inl there ↦ inl (rw there (refl, inl (ground arith)))
  | inr before ↦ elim (Bool-cases (leb (start + timeout) t.before_sleep)) [
    | inl there ↦ inl (rw (before, there) (refl, inr (ground arith)))
    | inr early ↦ inr (
      rw (before, early) refl,
      λ h. elim h [ inl a ↦ absurd (ground arith) | inr b ↦ absurd (ground arith) ],
    )
  ]
]

later_turn :
    (start : ℕ) (timeout : Option ℕ) (t : Turn) (ts : List Turn) (o : Outcome)
    → (Reached start timeout t → ⊥)
    → Explains start timeout ts o
    → Explains start timeout (t ∷ ts) o
later_turn start timeout t ts (claimed e) early h = tt
later_turn start timeout t ts timed_out early h = inr h
later_turn start timeout t ts waiting early h = (early, h)

claim_loop_explained :
    (consumer : String) (q : Filter) (window start : ℕ) (timeout : Option ℕ) (ts : List Turn)
    (s : Store)
    → Explains start timeout ts (claim_loop consumer q window (deadline_of start timeout) ts s).0
unfolding claim_loop
claim_loop_explained consumer q window start timeout [] s = tt
claim_loop_explained consumer q window start timeout (t ∷ ts) s =
    let s1 = (try_claim_next consumer q window t.now t.now_text (t.others s)).1 in
    elim (Option-cases (try_claim_next consumer q window t.now t.now_text (t.others s)).0) [
      | inr (e, found) ↦ rw (found, claim_loop) tt
      | inl nothing ↦ elim (Reached-cases start timeout t) [
        | inl (over, reached) ↦ rw (nothing, over, claim_loop) (inl reached)
        | inr (time, early) ↦
            rw (nothing, time, claim_loop)
              (later_turn start timeout t ts
                (claim_loop consumer q window (deadline_of start timeout) ts s1).0 early
                (claim_loop_explained consumer q window start timeout ts s1))
      ]
    ]

-- How the polling of `claim_next_event` ends, for a consumer whose name is not blank: it does not
-- raise, and it returns an event, or it returns nothing and the clock has reached the start plus the
-- timeout at one of the tests of a turn, or its turns are used up and at no test of any turn has the
-- clock reached it. So with a timeout it ends by the first turn at that time, and not before it without
-- an event; without a timeout only an event ends it.
pub polling_ends :
    (consumer : String) (q : Filter) (lease : Option ℕ) (own start : ℕ) (timeout : Option ℕ)
    (ts : List Turn) (s : Store)
    → is_blank consumer ≡ false
    → (o : Outcome) × (s' : Store) × (claim_next_event consumer q lease own start timeout ts s
        ≡ ok (o, s'))
      × Explains start timeout ts o
unfolding claim_next_event
polling_ends consumer q lease own start timeout ts s named =
    let asked : Filter = record {
      target_agent = stripped q.target_agent;
      include_unrouted = q.include_unrouted;
    } in
    let window = lease_window lease own in
    let result = claim_loop (strip consumer) asked window (deadline_of start timeout) ts s in
    (
      result.0,
      result.1,
      rw (named, claim_next_event) refl,
      claim_loop_explained (strip consumer) asked window start timeout ts s,
    )
