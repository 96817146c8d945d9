-- ===== src/Governance/Boardroom.antt =====
-- appshak_governance/arbitration.py: votes on an agent, weighed by authority and trust.
use app_shak_hq.Prelude.{
  All, Bool, Bool-cases, List, Option, Option-cases, String, [], arith, false, if◌then◌else◌, inl,
  inr, length, nat_eq, none, not, refl, some, some_inj, string_eq, sym, true, ◌==◌, ◌||◌, ◌∷◌, ◌≡◌,
  ◌≤◌,
}
use app_shak_hq.Python.Value.{Fields, get}
use app_shak_hq.Governance.Floats.{
  FloatOps, IsUnit, as_float, clamp, clamp-IsBetween, one_float, zero_float,
}
use app_shak_hq.Governance.Registry.{
  AgentRegistry, agent_id_of, authority_of, has_agent, normalize_agent_id, trust_weight,
}

pub record ArbitrationVote (F : Type 0) : Type 0 where
  pub voter : String
  pub reasoning_score : F
  pub vote_authority : F
  pub vote_trust : F
  pub decision_score : F

pub record ArbitrationResult (F : Type 0) : Type 0 where
  pub target_agent : String
  pub threshold : F
  pub aggregate_score : F
  pub approved : Bool
  pub votes : List (ArbitrationVote F)

module _ {F : Type 0} (ops : FloatOps F) (r : AgentRegistry F) where
  -- the vote of a ballot, if the voter is known
  unfoldable pub vote_of : String → Fields → Option (ArbitrationVote F)
  vote_of target ballot =
      let voter = agent_id_of (get "agent_id" ballot) in
      if voter == "" || not (has_agent ops voter r)
      then none
      else (let reasoning =
            clamp ops (as_float ops (get "reasoning_score" ballot) (zero_float ops))
              (zero_float ops) (one_float ops) in
          let authority = authority_of ops voter r in
          let trust = trust_weight ops voter target r in
          some (record {
            voter = voter;
            reasoning_score = reasoning;
            vote_authority = authority;
            vote_trust = trust;
            decision_score = ops.mul (ops.mul reasoning authority) trust;
          }))

  abbrev cons_vote :
      Option (ArbitrationVote F) → List (ArbitrationVote F) → List (ArbitrationVote F)
  cons_vote none vs = vs
  cons_vote (some v) vs = v ∷ vs

  unfoldable pub votes_of : String → List Fields → List (ArbitrationVote F)
  unfolding vote_of
  votes_of target [] = []
  votes_of target (b ∷ bs) = cons_vote (vote_of target b) (votes_of target bs)

  -- `sum(…)`, which adds from the left and starts at the integer 0
  abbrev sum_from : F → List (ArbitrationVote F) → F
  sum_from acc [] = acc
  sum_from acc (v ∷ vs) = sum_from (ops.add acc v.decision_score) vs

  abbrev pub aggregate : List (ArbitrationVote F) → F
  aggregate [] = zero_float ops
  aggregate (v ∷ vs) = ops.div (sum_from (ops.of_nat 0) (v ∷ vs)) (ops.of_nat (length (v ∷ vs)))

  abbrev pub decision_threshold : F
  decision_threshold = ops.literal "0.35"

  unfoldable pub arbitrate_target : String → List Fields → ArbitrationResult F
  unfolding votes_of
  arbitrate_target target ballots =
      let id = normalize_agent_id target in
      if id == "" || not (has_agent ops id r)
      then record {
        target_agent = id;
        threshold = decision_threshold;
        aggregate_score = zero_float ops;
        approved = false;
        votes = [];
      }
      else (let votes = votes_of id ballots in
          record {
            target_agent = id;
            threshold = decision_threshold;
            aggregate_score = aggregate votes;
            approved = ops.le decision_threshold (aggregate votes);
            votes = votes;
          })

  -- what a vote that counts is made of
  abbrev pub IsCounted : String → ArbitrationVote F → Type 0
  IsCounted target v =
      (has_agent ops v.voter r ≡ true)
      × IsUnit ops v.reasoning_score
      × (v.decision_score
          ≡ ops.mul (ops.mul v.reasoning_score (authority_of ops v.voter r))
              (trust_weight ops v.voter target r))

  vote_of-IsCounted :
      (target : String) (ballot : Fields) {v : ArbitrationVote F}
      → vote_of target ballot ≡ some v
      → IsCounted target v
  unfolding vote_of
  vote_of-IsCounted target ballot {v} h =
      let voter = agent_id_of (get "agent_id" ballot) in
      elim (Bool-cases (voter == "" || not (has_agent ops voter r))) [
        | inl passed ↦ let none_made = rw passed at h in cc
        | inr known ↦
            let made = some_inj (rw known at h) in
            rw (sym made) (ground (arith, known), clamp-IsBetween ops _ _ _, refl)
      ]

  votes_of-IsCounted :
      (target : String) (bs : List Fields) → All (IsCounted target) (votes_of target bs)
  unfolding votes_of
  votes_of-IsCounted target [] = tt
  votes_of-IsCounted target (b ∷ bs) = elim (Option-cases (vote_of target b)) [
    | inl ignored ↦ rw ignored (votes_of-IsCounted target bs)
    | inr (v, counted) ↦
        rw counted (vote_of-IsCounted target b {v = v} counted, votes_of-IsCounted target bs)
  ]

  length-votes_of : (id : String) (bs : List Fields) → length (votes_of id bs) ≤ length bs
  unfolding votes_of
  length-votes_of id [] = omega arith
  length-votes_of id (b ∷ bs) = elim (Option-cases (vote_of id b)) [
    | inl ignored ↦ rw ignored (omega (arith, length-votes_of id bs))
    | inr (v, counted) ↦ rw counted (omega (arith, length-votes_of id bs))
  ]

  -- Only known agents decide, and only about a known agent: every vote that counts is of an agent in
  -- the registry, with a reasoning score that is 0, 1 or strictly between, and weighs that score by
  -- the voter's authority and its trust in the target. There are at most as many votes as ballots,
  -- and a target is approved only if it is known and the average of the votes reaches the threshold.
  pub arbitration_counts :
      (target : String) (ballots : List Fields)
      → let result = arbitrate_target target ballots in
        let id = normalize_agent_id target in
        All (IsCounted id) result.votes
        × (length result.votes ≤ length ballots)
        × (result.approved ≡ true
            → (has_agent ops id r ≡ true)
              × (ops.le decision_threshold (aggregate result.votes) ≡ true))
  unfolding arbitrate_target
  arbitration_counts target ballots =
      let id = normalize_agent_id target in
      elim (Bool-cases (id == "" || not (has_agent ops id r))) [
        | inl unknown ↦ rw unknown (tt, omega arith, λ h. cc)
        | inr known ↦ rw known (
          votes_of-IsCounted id ballots,
          length-votes_of id ballots,
          λ h. (ground (arith, known), h),
        )
      ]
