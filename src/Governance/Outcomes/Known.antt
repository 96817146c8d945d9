-- ===== src/Governance/Outcomes/Known.antt =====
-- Whom the outcomes of appshak_governance/projection_adapter.py are about.
use app_shak_hq.Prelude.{
  All, Bool-cases, List, String, [], and_true, arith, eq_iff, false, if◌then◌else◌, inl, inr, ltb,
  nat_eq, not, refl, string_eq, true, ℕ, ◌&&◌, ◌++◌, ◌-◌, ◌==◌, ◌||◌, ◌∷◌, ◌≡◌, ◌≤◌,
}
use app_shak_hq.Python.Value.{
  Fields, Value, arr, bool, end, field, float, get, int, null, obj, str, ℤ,
}
use app_shak_hq.Substrate.Supervisor.State.{contains}
use app_shak_hq.Governance.Registry.{
  agent_id_of, normalize_agent_id, sorted_texts, str_before, with_lesson,
}
use app_shak_hq.Governance.Relationship.{GovernanceOutcome}
use app_shak_hq.Governance.Outcomes.{
  Readers, active_agents, active_of, all_tool_outcomes, as_int_or_zero, derive_outcomes, dict_of,
  event_outcome, event_outcomes, first_known, int_lt, is_active, or_everyone, resolve_subject_id,
  text_at, tool_count, tool_outcomes,
}
use app_shak_hq.Python.Text.{strip, upper}

weaken :
    (P Q : String → Type 0) (xs : List String) → ((x : String) → P x → Q x) → All P xs → All Q xs
weaken P Q [] f h = tt
weaken P Q (x ∷ xs) f h = (f x h.0, weaken P Q xs f h.1)

with_lesson-All :
    (P : String → Type 0) (x : String) (xs : List String)
    → P x
    → All P xs
    → All P (with_lesson x xs)
with_lesson-All P x [] p h = (p, tt)
with_lesson-All P x (y ∷ ys) p h = elim (Bool-cases (str_before x y)) [
  | inl earlier ↦ rw earlier (p, h)
  | inr later ↦ rw later (h.0, with_lesson-All P x ys p h.1)
]

sorted_texts-All : (P : String → Type 0) (xs : List String) → All P xs → All P (sorted_texts xs)
sorted_texts-All P [] h = tt
sorted_texts-All P (x ∷ xs) h =
    with_lesson-All P x (sorted_texts xs) h.0 (sorted_texts-All P xs h.1)

self_contained : (xs : List String) → All (λ a. contains a xs ≡ true) xs
unfolding contains
self_contained [] = tt
self_contained (x ∷ xs) = (
  ground (arith, eq_iff x x),
  weaken (λ a. contains a xs ≡ true) (λ a. contains a (x ∷ xs) ≡ true) xs (λ a h. ground arith)
      (self_contained xs),
)

outcomes_append :
    (P : GovernanceOutcome → Type 0) (xs ys : List GovernanceOutcome)
    → All P xs
    → All P ys
    → All P (xs ++ ys)
outcomes_append P [] ys h k = k
outcomes_append P (x ∷ xs) ys h k = (h.0, outcomes_append P xs ys h.1 k)

module _ (py : Readers) (known : List String) where
  abbrev pub IsAbout : GovernanceOutcome → Type 0
  IsAbout o = contains o.agent_id known ≡ true

  first_known-IsKnown :
      (vs : List Value)
      → (first_known py known vs == "") ≡ false
      → contains (first_known py known vs) known ≡ true
  first_known-IsKnown [] h = cc
  first_known-IsKnown (v ∷ vs) h =
      elim (Bool-cases (not (agent_id_of v == "") && contains (agent_id_of v) known)) [
        | inl found ↦ rw (first_known, found) (and_true _ _ found).1
        | inr missing ↦
            rw (first_known, missing)
              (first_known-IsKnown vs (let h' = rw (first_known, missing) at h in h'))
      ]

  active_of-IsKnown :
      (workers : Fields) → All (λ a. contains a known ≡ true) (active_of py known workers)
  unfolding active_of
  active_of-IsKnown end = tt
  active_of-IsKnown (field worker state workers) =
      let id = normalize_agent_id worker in
      elim (Bool-cases (not (id == "") && contains id known && is_active py state)) [
        | inl there ↦ rw there (ground (arith, there), active_of-IsKnown workers)
        | inr left_out ↦ rw left_out (active_of-IsKnown workers)
      ]

  subject-known :
      (event_found : Fields)
      → (resolve_subject_id py known event_found == "") ≡ false
      → contains (resolve_subject_id py known event_found) known ≡ true
  unfolding resolve_subject_id
  subject-known event_found h =
      let payload = dict_of (get "payload" event_found) in
      first_known-IsKnown
        (get "target_agent" payload
          ∷ get "agent_id" payload
          ∷ get "worker" payload
          ∷ get "origin_id" event_found
          ∷ [])
        h

  event-IsAbout : (id : ℤ) (v : Value) → All IsAbout (event_outcomes py known id v)
  event-IsAbout id (obj d) =
      let kind = upper (strip (text_at py "type" d)) in
      let subject = resolve_subject_id py known d in
      elim (Bool-cases (kind == "" || subject == "" || event_outcome kind == "")) [
        | inl nothing_made ↦ rw nothing_made tt
        | inr made ↦ rw made (subject-known d (ground arith), tt)
      ]
  event-IsAbout id null = tt
  event-IsAbout id (bool b) = tt
  event-IsAbout id (int n) = tt
  event-IsAbout id (float f) = tt
  event-IsAbout id (str s) = tt
  event-IsAbout id (arr vs) = tt

  tool-IsAbout :
      (allowed denied : ℕ) (id : ℤ) (timestamp : String) (agents : List String)
      → All (λ a. contains a known ≡ true) agents
      → All IsAbout (all_tool_outcomes py allowed denied id timestamp agents)
  tool-IsAbout allowed denied id timestamp [] h = tt
  tool-IsAbout allowed denied id timestamp (a ∷ agents) h =
      outcomes_append IsAbout (tool_outcomes py allowed denied id timestamp a) _
        (elim (Bool-cases (ltb 0 allowed)) [
          | inl more ↦ elim (Bool-cases (ltb 0 denied)) [
            | inl worse ↦ rw (more, worse) (h.0, (h.0, tt))
            | inr same ↦ rw (more, same) (h.0, tt)
          ]
          | inr none_more ↦ elim (Bool-cases (ltb 0 denied)) [
            | inl worse ↦ rw (none_more, worse) (h.0, tt)
            | inr same ↦ rw (none_more, same) tt
          ]
        ])
        (tool-IsAbout allowed denied id timestamp agents h.1)

  everyone :
      (active : List String)
      → All (λ a. contains a known ≡ true) active
      → All (λ a. contains a known ≡ true) (or_everyone py known active)
  everyone [] h = sorted_texts-All _ known (self_contained known)
  everyone (a ∷ active) h = sorted_texts-All _ (a ∷ active) h

  active_agents-known :
      (view : Fields) → All (λ a. contains a known ≡ true) (active_agents py known view)
  unfolding active_agents
  active_agents-known view = go (get "workers" view)
    where
      go :
          (v : Value)
          → All
              (λ a. contains a known ≡ true)
              (elim v [
                | obj workers ↦ or_everyone py known (active_of py known workers)
                | _ ↦ sorted_texts known
              ])
      go (obj workers) = everyone (active_of py known workers) (active_of-IsKnown workers)
      go null = sorted_texts-All _ known (self_contained known)
      go (bool b) = sorted_texts-All _ known (self_contained known)
      go (int n) = sorted_texts-All _ known (self_contained known)
      go (float f) = sorted_texts-All _ known (self_contained known)
      go (str s) = sorted_texts-All _ known (self_contained known)
      go (arr vs) = sorted_texts-All _ known (self_contained known)

  no_news :
      (id : ℤ) (timestamp : String) (agents : List String)
      → all_tool_outcomes py 0 0 id timestamp agents ≡ []
  no_news id timestamp [] = refl
  no_news id timestamp (a ∷ agents) = no_news id timestamp agents

  -- Every outcome that is derived is about a known agent; and where the view has no newer event and
  -- neither count of the tool audits has grown, nothing is derived, so that a view that is ingested
  -- again changes nobody's reputation.
  pub derived_outcomes_known :
      (previous current : Fields)
      → All IsAbout (derive_outcomes py previous current known)
        × (int_lt
                (as_int_or_zero py (get "last_seen_event_id" previous))
                (as_int_or_zero py (get "last_seen_event_id" current))
              ≡ false
            → tool_count py "allowed" current ≤ tool_count py "allowed" previous
            → tool_count py "denied" current ≤ tool_count py "denied" previous
            → derive_outcomes py previous current known ≡ [])
  unfolding derive_outcomes
  derived_outcomes_known previous current =
      let before = as_int_or_zero py (get "last_seen_event_id" previous) in
      let id = as_int_or_zero py (get "last_seen_event_id" current) in
      (
        outcomes_append IsAbout
            (if int_lt before id
              then event_outcomes py known id (get "current_event" current)
              else [])
            _
            (elim (Bool-cases (int_lt before id)) [
              | inl newer ↦ rw newer (event-IsAbout id (get "current_event" current))
              | inr older ↦ rw older tt
            ])
            (tool-IsAbout (tool_count py "allowed" current - tool_count py "allowed" previous)
              (tool_count py "denied" current - tool_count py "denied" previous) id
              (text_at py "timestamp" current) (active_agents py known current)
              (active_agents-known current)),
        λ older allowed denied.
            let a : tool_count py "allowed" current - tool_count py "allowed" previous ≡ 0 =
              omega (arith, allowed) in
            let d : tool_count py "denied" current - tool_count py "denied" previous ≡ 0 =
              omega (arith, denied) in
            rw (older, a, d)
              (no_news id (text_at py "timestamp" current) (active_agents py known current)),
      )
