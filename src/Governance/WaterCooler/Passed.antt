-- ===== src/Governance/WaterCooler/Passed.antt =====
-- Who learns of a lesson of appshak_governance/water_cooler.py.
use mathlib.Core.Bool.{false≢true}
use app_shak_hq.Prelude.{
  All, Bool, Bool-cases, List, Option, Option-cases, String, [], ap, arith, eq_iff, false,
  if◌then◌else◌, inl, inr, is_some, keep_if, length, map, nat_eq, none, not, refl, some, string_eq,
  sym, true, ◌==◌, ◌↔◌, ◌∙◌, ◌∷◌, ◌≡◌, ◌≤◌,
}
use app_shak_hq.Python.Value.{Fields, Value, arr, bool, float, get, int, null, obj, str}
use app_shak_hq.Substrate.Supervisor.State.{contains, lookup}
use app_shak_hq.Governance.Floats.{FloatOps}
use app_shak_hq.Governance.Registry.{
  AgentRegistry, AgentState, add_lesson_reference, agent_ids, normalize_agent_id,
}
use app_shak_hq.Governance.Outcomes.{Readers, dict_of}
use app_shak_hq.Governance.WaterCooler.{
  WaterCoolerLesson, idle_trigger, lesson_from, maybe_propagate, pass_on, propagated, with_event,
}
use app_shak_hq.Governance.WaterCooler.Quiet.{
  IsQuietMoment, false_when_not, idle_iff, with_event-triggered,
}
use app_shak_hq.Governance.WaterCooler.Taught.{
  All-both, All-then, Knows, kept-All, length-take, lookup-add_lesson, take-All, taught,
  taught-keeps, taught-knows,
}

module _ {F : Type 0} (ops : FloatOps F) where
  abbrev IsPresent : AgentRegistry F → String → Type 0
  IsPresent r id = is_some (lookup id r.agents) ≡ true

  ids-present :
      (agents : List (String × AgentState F))
      → All (λ id. is_some (lookup id agents) ≡ true) (map (λ entry. entry.0) agents)
  unfolding lookup
  ids-present [] = tt
  ids-present ((id, a) ∷ agents) = (
    ground (arith, eq_iff id id),
    All-then (λ x. is_some (lookup x agents) ≡ true)
        (λ x. is_some (lookup x ((id, a) ∷ agents)) ≡ true) (map (λ entry. entry.0) agents)
        (λ x here. elim (Bool-cases (id == x)) [
          | inl same ↦ rw same refl
          | inr other ↦ rw other here
        ])
        (ids-present agents),
  )

  IsPresent-after :
      (agent lesson asked : String) (r : AgentRegistry F)
      → IsPresent r asked
      → IsPresent (add_lesson_reference ops agent lesson r) asked
  IsPresent-after agent lesson asked r here = elim (Option-cases (lookup asked r.agents)) [
    | inl nothing ↦ cc
    | inr (a, found) ↦ rw (lookup-add_lesson ops agent lesson asked r, found) refl
  ]

  Knows-after :
      (agent lesson id : String) (r : AgentRegistry F)
      → Knows ops lesson id r
      → Knows ops lesson id (add_lesson_reference ops agent lesson r)
  Knows-after agent lesson id r (a, found, known) = (
    a,
    lookup-add_lesson ops agent lesson id r
        ∙ rw found (ap (λ b. some b) (taught-keeps ops agent lesson id a known)),
    known,
  )

  taught_now :
      (agent lesson : String) (r : AgentRegistry F)
      → normalize_agent_id agent ≡ agent
      → IsPresent r agent
      → Knows ops lesson agent (add_lesson_reference ops agent lesson r)
  taught_now agent lesson r normal here = elim (Option-cases (lookup agent r.agents)) [
    | inl nothing ↦ absurd cc
    | inr (a, found) ↦ (
      taught ops agent lesson agent a,
      lookup-add_lesson ops agent lesson agent r ∙ rw found refl,
      taught-knows ops agent lesson agent a
          ((eq_iff agent (normalize_agent_id agent)).1 (sym normal)),
    )
  ]

  passed-keeps :
      (lesson id : String) (ids : List String) (r : AgentRegistry F)
      → Knows ops lesson id r
      → Knows ops lesson id (pass_on ops lesson ids r)
  unfolding pass_on
  passed-keeps lesson id [] r known = known
  passed-keeps lesson id (agent ∷ ids) r known =
      passed-keeps lesson id ids (add_lesson_reference ops agent lesson r)
        (Knows-after agent lesson id r known)

  abbrev IsAddressed : AgentRegistry F → String → Type 0
  IsAddressed r id = (normalize_agent_id id ≡ id) × IsPresent r id

  passed-All :
      (lesson : String) (ids : List String) (r : AgentRegistry F)
      → All (IsAddressed r) ids
      → All (λ id. Knows ops lesson id (pass_on ops lesson ids r)) ids
  unfolding pass_on
  passed-All lesson [] r all = tt
  passed-All lesson (agent ∷ ids) r all =
      let r1 = add_lesson_reference ops agent lesson r in
      (
        passed-keeps lesson agent ids r1 (taught_now agent lesson r all.0.0 all.0.1),
        passed-All lesson ids r1 (
            All-then (IsAddressed r) (IsAddressed r1) ids
              (λ id there. (there.0, IsPresent-after agent lesson id r there.1)) all.1),
      )

  taught-other :
      (agent lesson asked : String) (a : AgentState F)
      → normalize_agent_id agent ≡ agent
      → (agent == asked) ≡ false
      → taught ops agent lesson asked a ≡ a
  taught-other agent lesson asked a normal other =
      let different : (asked == normalize_agent_id agent) ≡ false =
        rw normal (ground (arith, eq_iff asked agent, eq_iff agent asked)) in
      rw different refl

  same_lookup :
      (agent lesson asked : String) (r : AgentRegistry F)
      → normalize_agent_id agent ≡ agent
      → (agent == asked) ≡ false
      → lookup asked (add_lesson_reference ops agent lesson r).agents ≡ lookup asked r.agents
  same_lookup agent lesson asked r normal other = elim (Option-cases (lookup asked r.agents)) [
    | inl nothing ↦ lookup-add_lesson ops agent lesson asked r ∙ rw nothing refl
    | inr (a, found) ↦
        lookup-add_lesson ops agent lesson asked r
        ∙ rw found (ap (λ b. some b) (taught-other agent lesson asked a normal other))
  ]

  passed-others :
      (lesson asked : String) (ids : List String) (r : AgentRegistry F)
      → All (λ id. normalize_agent_id id ≡ id) ids
      → contains asked ids ≡ false
      → lookup asked (pass_on ops lesson ids r).agents ≡ lookup asked r.agents
  unfolding pass_on contains
  passed-others lesson asked [] r all not_one = refl
  passed-others lesson asked (agent ∷ ids) r all not_one = elim (Bool-cases (agent == asked)) [
    | inl same ↦ absurd cc
    | inr other ↦
        let rest : contains asked ids ≡ false = rw other at not_one in
        passed-others lesson asked ids (add_lesson_reference ops agent lesson r) all.1 rest
        ∙ same_lookup agent lesson asked r all.0 other
  ]

  -- what the call does to the registry: nothing, or the lesson reaches its recipients
  abbrev pub IsPassedOn :
      String → AgentRegistry F → AgentRegistry F → Option (WaterCoolerLesson F) → Type 0
  IsPassedOn asked r r' none = r' ≡ r
  IsPassedOn asked r r' (some l) =
      (length l.recipients ≤ 3)
      × All (λ id. Knows ops l.lesson_id id r' × ((id == l.source_agent) ≡ false)) l.recipients
      × (lookup asked r'.agents
          ≡ (if contains asked l.recipients then lookup asked r'.agents else lookup asked r.agents))

  propagated-IsPassedOn :
      (py : Readers) (hash : Fields → String) (current event_found : Fields) (asked : String)
      (r : AgentRegistry F)
      → All (λ id. normalize_agent_id id ≡ id) (agent_ids ops r)
      → let l = lesson_from ops py hash current event_found r in
        IsPassedOn asked r (propagated ops l r).1 (some l)
  propagated-IsPassedOn py hash current event_found asked r normal =
      let l = lesson_from ops py hash current event_found r in
      let test : String → Bool = λ id. not (id == l.source_agent) in
      let kept = keep_if test (agent_ids ops r) in
      let chosen : All (λ id. IsAddressed r id × (test id ≡ true)) l.recipients =
        take-All (λ id. IsAddressed r id × (test id ≡ true)) 3 kept
          (kept-All (IsAddressed r) test (agent_ids ops r) (
            All-both (λ id. normalize_agent_id id ≡ id) (IsPresent r) (agent_ids ops r) normal
              (ids-present r.agents))) in
      let r' = pass_on ops l.lesson_id l.recipients r in
      (
        length-take 3 kept,
        All-both (λ id. Knows ops l.lesson_id id r') (λ id. (id == l.source_agent) ≡ false)
            l.recipients
            (passed-All l.lesson_id l.recipients r (
              All-then (λ id. IsAddressed r id × (test id ≡ true)) (IsAddressed r) l.recipients
                (λ id both. both.0) chosen))
            (All-then (λ id. IsAddressed r id × (test id ≡ true))
              (λ id. (id == l.source_agent) ≡ false) l.recipients
              (λ id both. false_when_not (id == l.source_agent) both.1) chosen),
        elim (Bool-cases (contains asked l.recipients)) [
          | inl reached ↦ rw reached refl
          | inr not_reached ↦ rw not_reached (
              passed-others l.lesson_id asked l.recipients r
                (All-then (λ id. IsAddressed r id × (test id ≡ true))
                  (λ id. normalize_agent_id id ≡ id) l.recipients (λ id both. both.0.0) chosen)
                not_reached)
        ],
      )

  with_event-IsPassedOn :
      (py : Readers) (hash : Fields → String) (current : Fields) (found : Value) (asked : String)
      (r : AgentRegistry F)
      → All (λ id. normalize_agent_id id ≡ id) (agent_ids ops r)
      → let (p, r') = with_event ops py hash current found r in
        (p.triggered ≡ is_some p.lesson) × IsPassedOn asked r r' p.lesson
  with_event-IsPassedOn py hash current null asked r normal = (refl, refl)
  with_event-IsPassedOn py hash current (bool b) asked r normal = (refl, refl)
  with_event-IsPassedOn py hash current (int n) asked r normal = (refl, refl)
  with_event-IsPassedOn py hash current (float x) asked r normal = (refl, refl)
  with_event-IsPassedOn py hash current (str s) asked r normal = (refl, refl)
  with_event-IsPassedOn py hash current (arr vs) asked r normal = (refl, refl)
  with_event-IsPassedOn py hash current (obj event_found) asked r normal =
      (refl, propagated-IsPassedOn py hash current event_found asked r normal)

  -- Where the ids of the registry are normalised: a lesson is made exactly in a quiet moment with a
  -- current event, that is, where the id of the last event has grown since the previous view, the
  -- office is paused, and its stress level is not above 0.2. Without a lesson the registry stays as it
  -- is. A lesson has at most three recipients, none of them its source; each of them is registered
  -- and knows the lesson afterwards, and every agent that is not one of them is as it was.
  pub lesson_reaches_recipients :
      (py : Readers) (hash : Fields → String) (previous current : Value) (asked : String)
      (r : AgentRegistry F)
      → All (λ id. normalize_agent_id id ≡ id) (agent_ids ops r)
      → let (p, r') = maybe_propagate ops py hash previous current r in
        ((p.triggered ≡ true) ↔ (
          IsQuietMoment ops py (dict_of previous) (dict_of current)
          × ((event_found : Fields) × (get "current_event" (dict_of current) ≡ obj event_found))))
        × (p.triggered ≡ is_some p.lesson)
        × IsPassedOn asked r r' p.lesson
  unfolding maybe_propagate
  lesson_reaches_recipients py hash previous current asked r normal =
      let before = dict_of previous in
      let now = dict_of current in
      elim (Bool-cases (idle_trigger ops py hash before now)) [
        | inl idle ↦ rw idle (
          with_event-triggered ops py hash now (get "current_event" now) r before
              ((idle_iff ops py hash before now).0 idle),
          (with_event-IsPassedOn py hash now (get "current_event" now) asked r normal).0,
          (with_event-IsPassedOn py hash now (get "current_event" now) asked r normal).1,
        )
        | inr busy ↦ rw busy (
          (
            λ h. absurd (false≢true h),
            λ h. absurd (false≢true (sym busy ∙ (idle_iff ops py hash before now).1 h.0)),
          ),
          refl,
          refl,
        )
      ]
