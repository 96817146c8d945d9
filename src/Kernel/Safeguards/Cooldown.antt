-- ===== src/Kernel/Safeguards/Cooldown.antt =====
-- When an action cools down: the count of failures in `record_attempt` of appshak/safeguards.py.
use app_shak_hq.Prelude.{
  Bool-cases, List, Option, String, [], ap, arith, eq_iff, false, if◌then◌else◌, inl, inr, leb,
  length, ltb, min, nat_eq, refl, string_eq, sym, ℕ, ◌&&◌, ◌+◌, ◌<◌, ◌==◌, ◌∙◌, ◌∷◌, ◌≡◌,
}
use app_shak_hq.Python.Value.{Fields, end, field}
use app_shak_hq.Substrate.Supervisor.State.{lookup-insert}
use app_shak_hq.Kernel.Safeguards.{
  Attempt, Library, SafeguardMonitor, action_key, after_failure, attempt_of, cooldown_status,
  extract_endpoint, fresh_attempt, iso_or_null, record_attempt, with_attempt,
}
use app_shak_hq.Kernel.Safeguards.Gate.{
  check_request, checked, refusal, refusal-with_attempt, verdict,
}

pub attempt_of-with_attempt :
    (key asked : String) (a : Attempt) (m : SafeguardMonitor)
    → attempt_of (with_attempt key a m) asked ≡ (if key == asked then a else attempt_of m asked)
attempt_of-with_attempt key asked a m =
    ground (arith, eq_iff key asked, lookup-insert key asked a m.attempt_state)

if_same : {A : Type 0} (k : String) (a b : A) → (if k == k then a else b) ≡ a
if_same k a b = ground (arith, eq_iff k k)

module _ (lib : Library) (payload : Fields) (origin : String) where
  abbrev pub own_key : String
  own_key = action_key lib payload origin (extract_endpoint lib payload)

  -- the monitor after failures of the same action at the times, the latest first
  abbrev pub failures : List ℕ → SafeguardMonitor → SafeguardMonitor
  failures [] m = m
  failures (t ∷ earlier) m = (record_attempt lib payload origin t false (failures earlier m)).1

  -- where the failures from a fresh start lead
  abbrev counted : List ℕ → SafeguardMonitor → Attempt
  counted [] m = fresh_attempt
  counted (t ∷ earlier) m =
      if leb m.retry_max (length earlier + 1)
      then record { retries = m.retry_max; cooldown_until = t + m.cooldown }
      else record { retries = length earlier + 1; cooldown_until = 0 }

  failures_settings :
      (times : List ℕ) (m : SafeguardMonitor)
      → ((failures times m).retry_max ≡ m.retry_max) × ((failures times m).cooldown ≡ m.cooldown)
  unfolding record_attempt
  failures_settings [] m = (refl, refl)
  failures_settings (t ∷ earlier) m = failures_settings earlier m

  next_count :
      (t : ℕ) (earlier : List ℕ) (m : SafeguardMonitor)
      → 0 < m.retry_max
      → after_failure (failures earlier m) t (counted earlier m) ≡ counted (t ∷ earlier) m
  unfolding after_failure
  next_count t [] m h = ground arith
  next_count t (u ∷ earlier) m h =
      let same = failures_settings (u ∷ earlier) m in
      elim (Bool-cases (leb m.retry_max (length earlier + 1))) [
        | inl full ↦ rw (same.0, same.1, full) (ground arith)
        | inr few ↦ rw (same.0, same.1, few) (ground arith)
      ]

  failures-counted :
      (times : List ℕ) (m : SafeguardMonitor)
      → 0 < m.retry_max
      → attempt_of m own_key ≡ fresh_attempt
      → attempt_of (failures times m) own_key ≡ counted times m
  unfolding record_attempt
  failures-counted [] m h fresh = fresh
  failures-counted (t ∷ earlier) m h fresh =
      let before = failures-counted earlier m h fresh in
      let m' = failures earlier m in
      let a = after_failure m' t (attempt_of m' own_key) in
      attempt_of-with_attempt own_key own_key a m'
      ∙ if_same own_key a (attempt_of m' own_key)
      ∙ ap (after_failure m' t) before
      ∙ next_count t earlier m h

  abbrev pub cooling_report : ℕ → Fields
  cooling_report until =
      checked false "Action in cooldown window." own_key (extract_endpoint lib payload) origin
        (field "cooldown_until" (iso_or_null lib until) end)

  abbrev answer : ℕ → Attempt → Option (String × Fields) → Fields
  answer t a v =
      if ltb t a.cooldown_until
      then cooling_report a.cooldown_until
      else verdict lib payload origin own_key (extract_endpoint lib payload) v

  check_request-eq :
      (t : ℕ) (m : SafeguardMonitor)
      → (check_request lib payload origin t m).0
        ≡ answer t (attempt_of m own_key) (refusal lib payload origin m)
  unfolding check_request cooldown_status
  check_request-eq t m =
      rw (refusal-with_attempt lib payload origin own_key (attempt_of m own_key) m) refl

  refusal-failures :
      (times : List ℕ) (m : SafeguardMonitor)
      → refusal lib payload origin (failures times m) ≡ refusal lib payload origin m
  unfolding record_attempt
  refusal-failures [] m = refl
  refusal-failures (t ∷ earlier) m =
      let m' = failures earlier m in
      refusal-with_attempt lib payload origin own_key (after_failure m' t (attempt_of m' own_key))
        m'
      ∙ refusal-failures earlier m

  not_yet : (t : ℕ) → ltb t 0 ≡ false
  not_yet t = ground arith

  answer-counted :
      (t last n : ℕ) (m : SafeguardMonitor) (v : Option (String × Fields))
      → answer t
          (if leb m.retry_max (n + 1)
            then record { retries = m.retry_max; cooldown_until = last + m.cooldown }
            else record { retries = n + 1; cooldown_until = 0 })
          v
        ≡ (if leb m.retry_max (n + 1) && ltb t (last + m.cooldown)
            then cooling_report (last + m.cooldown)
            else answer t fresh_attempt v)
  answer-counted t last n m v = elim (Bool-cases (leb m.retry_max (n + 1))) [
    | inl full ↦ rw (full, not_yet t) refl
    | inr few ↦ rw (few, not_yet t) refl
  ]

  -- Where at least one failure is allowed, consider an action that starts afresh and then fails some
  -- times in a row. The count of its retries is the number of failures, up to the maximum. A check
  -- reports the cooldown if they are at least as many as the maximum and the cooldown since the last
  -- of them is not over; otherwise it answers what it would have answered before the failures.
  pub cooldown_exact :
      (t last : ℕ) (earlier : List ℕ) (m : SafeguardMonitor)
      → 0 < m.retry_max
      → attempt_of m own_key ≡ fresh_attempt
      → let m' = failures (last ∷ earlier) m in
        ((attempt_of m' own_key).retries ≡ min (length earlier + 1) m.retry_max)
        × ((check_request lib payload origin t m').0 ≡ (
            if leb m.retry_max (length earlier + 1) && ltb t (last + m.cooldown)
            then cooling_report (last + m.cooldown)
            else (check_request lib payload origin t m).0))
  cooldown_exact t last earlier m h fresh =
      let count = failures-counted (last ∷ earlier) m h fresh in
      let m' = failures (last ∷ earlier) m in
      let before : (check_request lib payload origin t m).0
          ≡ answer t fresh_attempt (refusal lib payload origin m) =
        check_request-eq t m ∙ ap (λ a. answer t a (refusal lib payload origin m)) fresh in
      (
        ap (λ a. a.retries) count ∙ ground arith,
        check_request-eq t m'
            ∙ ap (λ a. answer t a (refusal lib payload origin m')) count
            ∙ ap (answer t (counted (last ∷ earlier) m)) (refusal-failures (last ∷ earlier) m)
            ∙ answer-counted t last (length earlier) m (refusal lib payload origin m)
            ∙ ap
                (λ x.
                  if leb m.retry_max (length earlier + 1) && ltb t (last + m.cooldown)
                  then cooling_report (last + m.cooldown)
                  else x)
                (sym before),
      )
