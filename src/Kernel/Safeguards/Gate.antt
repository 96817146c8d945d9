-- ===== src/Kernel/Safeguards/Gate.antt =====
-- appshak/safeguards.py: `check_request`, whose tests run in the order of the source and end at the
-- first that fails, and `execute_in_sandbox`.
use app_shak_hq.Prelude.{
  Bool, Bool-cases, Option, Option-cases, String, arith, eq_iff, false, if◌then◌else◌, inl, inr,
  is_none, ltb, nat_eq, none, not, refl, some, string_eq, true, ℕ, ◌&&◌, ◌==◌, ◌↔◌, ◌≡◌, ◌≢◌, ◌≤◌,
  ◌⊎◌,
}
use app_shak_hq.Python.Value.{Fields, bool, end, field, get, get?, str, truthy}
use app_shak_hq.Kernel.Safeguards.{
  Attempt, Library, SafeguardMonitor, action_key, attempt_of, contains_monetary_operation,
  contains_shell_execution, cooldown_status, extract_endpoint, get_or, is_false, is_safe_method,
  is_whitelisted, iso_or_null, method_of, printed, with_attempt,
}

-- the dictionary that the check returns
abbrev pub checked : Bool → String → String → String → String → Fields → Fields
checked allowed reason key endpoint origin more = field "allowed" (bool allowed) (
    field "reason" (str reason) (
      field "action_key" (str key)
        (field "endpoint" (str endpoint) (field "origin_id" (str origin) more))))

module _ (lib : Library) (payload : Fields) (origin : String) where
  -- the tests after the cooldown's: the reason of a refusal, and what more it reports
  unfoldable pub refusal : SafeguardMonitor → Option (String × Fields)
  refusal m =
      let endpoint = extract_endpoint lib payload in
      let method = method_of lib payload in
      if contains_monetary_operation lib payload
      then some ("Monetary operations are prohibited by safeguard policy.", end)
      else (if contains_shell_execution payload
          then some ("Shell execution is prohibited by safeguard policy.", end)
          else (if not m.allow_real_world_impact && not (is_safe_method method)
              then some (
                "Real-world execution methods are blocked by safeguard policy.",
                field "method" (str method) end,
              )
              else (if not m.allow_real_world_impact && is_false (get "simulate" payload)
                  then some ("simulate=false is blocked by safeguard policy.", end)
                  else (if endpoint == ""
                      then some ("External action request missing endpoint.", end)
                      else (if is_whitelisted lib m endpoint
                          then none
                          else some ("Endpoint is not in whitelist.", end))))))

  abbrev pub verdict : String → String → Option (String × Fields) → Fields
  verdict key endpoint none = checked true "Safeguard checks passed." key endpoint origin end
  verdict key endpoint (some (reason, more)) = checked false reason key endpoint origin more

  unfoldable pub check_request : ℕ → SafeguardMonitor → Fields × SafeguardMonitor
  unfolding refusal
  check_request now m =
      let endpoint = extract_endpoint lib payload in
      let key = action_key lib payload origin endpoint in
      let (cooling, until, m') = cooldown_status key now m in
      (
        (if cooling
            then checked false "Action in cooldown window." key endpoint origin
                (field "cooldown_until" (iso_or_null lib until) end)
            else verdict key endpoint (refusal m')),
        m',
      )

  -- the dictionary that the sandbox returns
  abbrev run_report : Bool → String → String → Fields → Fields
  run_report success status reason more = field "success" (bool success) (
      field "status" (str status) (
        field "reason" (str reason) (
          field "origin_id" (str origin) (
            field "endpoint" (str (extract_endpoint lib payload)) (
              field "action" (str (printed lib (get_or "action" (str "external_action") payload)))
                more)))))

  unfoldable pub execute_in_sandbox : Fields
  execute_in_sandbox =
      let method = method_of lib payload in
      let with_method = field "method" (str method) end in
      if contains_shell_execution payload
      then run_report false "denied" "Shell execution denied in sandbox." end
      else (if contains_monetary_operation lib payload
          then run_report false "denied" "Monetary operation denied in sandbox." end
          else (if not (is_safe_method method)
              then run_report false "denied"
                  "Only SIMULATE/NOOP methods are allowed in the sandbox." with_method
              else (if is_false (get "simulate" payload)
                  then run_report false "denied" "simulate=false denied in sandbox." with_method
                  else run_report true "executed" "Sandbox simulation completed." with_method)))

-- The conditions that a request meets besides the cooldown.
pub record IsSafe (lib : Library) (payload : Fields) (m : SafeguardMonitor) : Type 0 where
  pub no_money : contains_monetary_operation lib payload ≡ false
  pub no_shell : contains_shell_execution payload ≡ false
  pub simulated :
      (m.allow_real_world_impact ≡ true)
      ⊎ ((is_safe_method (method_of lib payload) ≡ true)
          × (is_false (get "simulate" payload) ≡ false))
  pub named : extract_endpoint lib payload ≢ ""
  pub listed : is_whitelisted lib m (extract_endpoint lib payload) ≡ true

abbrev pub is_allowed : Fields → Bool
is_allowed check = truthy (get "allowed" check)

module _ (lib : Library) (payload : Fields) (origin : String) where
  refusal-none : (m : SafeguardMonitor) → refusal lib payload origin m ≡ none → IsSafe lib payload m
  unfolding refusal
  refusal-none m h =
      let endpoint = extract_endpoint lib payload in
      record {
        no_money = ground arith;
        no_shell = ground arith;
        simulated = ground arith;
        named = λ e. ground (arith, eq_iff endpoint "");
        listed = ground arith;
      }

  IsSafe-refusal :
      (m : SafeguardMonitor) → IsSafe lib payload m → refusal lib payload origin m ≡ none
  unfolding refusal
  IsSafe-refusal m safe = ground (
    arith,
    safe.no_money,
    safe.no_shell,
    safe.simulated,
    safe.named,
    safe.listed,
    eq_iff (extract_endpoint lib payload) "",
  )

  pub refusal-with_attempt :
      (key : String) (a : Attempt) (m : SafeguardMonitor)
      → refusal lib payload origin (with_attempt key a m) ≡ refusal lib payload origin m
  unfolding refusal is_whitelisted
  refusal-with_attempt key a m = refl

  verdict-allowed :
      (key endpoint : String) (v : Option (String × Fields))
      → is_allowed (verdict lib payload origin key endpoint v) ≡ is_none v
  unfolding get get? truthy
  verdict-allowed key endpoint none = refl
  verdict-allowed key endpoint (some v) = refl

  is_cooling : ℕ → SafeguardMonitor → Bool
  is_cooling now m =
      ltb now
        (attempt_of m (action_key lib payload origin (extract_endpoint lib payload))).cooldown_until

  check_allowed :
      (now : ℕ) (m : SafeguardMonitor)
      → is_allowed (check_request lib payload origin now m).0
        ≡ (if is_cooling now m then false else is_none (refusal lib payload origin m))
  unfolding check_request cooldown_status is_cooling get get? truthy
  check_allowed now m = elim (Bool-cases (is_cooling now m)) [
    | inl cooling ↦ rw cooling refl
    | inr warm ↦
        let key = action_key lib payload origin (extract_endpoint lib payload) in
        rw
          (
            warm,
            verdict-allowed key (extract_endpoint lib payload)
                (refusal lib payload origin (with_attempt key (attempt_of m key) m)),
            refusal-with_attempt key (attempt_of m key) m,
          )
          refl
  ]

  -- A request passes the safeguards exactly when its action is not cooling down, its payload names no
  -- monetary operation and no field for a shell, it is simulated unless real-world impact is
  -- configured, and its endpoint is there and its host is on the whitelist.
  pub allowed_iff :
      (now : ℕ) (m : SafeguardMonitor)
      → let key = action_key lib payload origin (extract_endpoint lib payload) in
        let until = (attempt_of m key).cooldown_until in
        (is_allowed (check_request lib payload origin now m).0 ≡ true)
        ↔ ((until ≤ now) × IsSafe lib payload m)
  unfolding is_cooling
  allowed_iff now m = (
    (λ h. elim (Bool-cases (is_cooling now m)) [
      | inl cooling ↦ let denied = rw (check_allowed now m, cooling) at h in cc
      | inr warm ↦ elim (Option-cases (refusal lib payload origin m)) [
        | inl passed ↦ (ground (arith, warm), refusal-none m passed)
        | inr (v, refused) ↦ let denied = rw (check_allowed now m, warm, refused) at h in cc
      ]
    ]),
    λ (early, safe).
        let warm : is_cooling now m ≡ false = ground (arith, early) in
        rw (check_allowed now m, warm, IsSafe-refusal m safe) refl,
  )

  -- What the safeguards have allowed succeeds in the sandbox, unless real-world impact is configured;
  -- and whatever succeeds in the sandbox has no field for a shell, names no monetary operation and is
  -- simulated.
  pub sandbox_agrees :
      (now : ℕ) (m : SafeguardMonitor)
      → let success = truthy (get "success" (execute_in_sandbox lib payload origin)) in
        (m.allow_real_world_impact ≡ false
          → is_allowed (check_request lib payload origin now m).0 ≡ true
          → success ≡ true)
        × (success ≡ true
            → (contains_shell_execution payload ≡ false)
              × (contains_monetary_operation lib payload ≡ false)
              × (is_safe_method (method_of lib payload) ≡ true)
              × (is_false (get "simulate" payload) ≡ false))
  unfolding execute_in_sandbox get get? truthy
  sandbox_agrees now m = (
    (λ default h.
        let safe = ((allowed_iff now m).0 h).1 in
        ground (arith, safe.no_shell, safe.no_money, safe.simulated)),
    λ h. ground arith,
  )
