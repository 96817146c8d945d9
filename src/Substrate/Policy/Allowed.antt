-- ===== src/Substrate/Policy/Allowed.antt =====
-- What an allowed request is known to satisfy.
use mathlib.Core.Bool.{false≢true}
use app_shak_hq.Prelude.{
  All, Bool-cases, List, Option-cases, String, [], any, ap, arith, eq_iff, false, inl, inr, map,
  not, refl, some, sym, true, ◌&&◌, ◌∙◌, ◌∷◌, ◌≡◌, ◌≢◌, ◌⊎◌,
}
use app_shak_hq.Python.Text.{contains_any, is_blank}
use app_shak_hq.Python.Value.{Fields, Value, as_list, end, field, get, get?-put, put, str, update}
use app_shak_hq.Substrate.Types.{ToolActionType, ToolRequest, git_diff, read_file, run_cmd}
use app_shak_hq.Python.Exec.{Error, Result-cases, ok, raised}
use app_shak_hq.Substrate.Policy.{
  Checked, Checked-cases, Host, PolicyDecision, Stop, ToolPolicy, argv_of, begins_with, check_arg,
  check_argv, command_is_whitelisted, decide_by, decide_command, denial, exception, is_authorized,
  is_mutating, is_subpath, nonempty_list, normalized_argv, pass, refuse, shell_metachars, strs,
  validate, validate_action, validate_command_payload, validate_in,
}

pub ok_inj {ℓ} : {A : Type ℓ} {a b : A} → ok a ≡ ok b → a ≡ b
ok_inj h = cc

raised_not_ok {ℓ} : {A : Type ℓ} {e : Error} {a : A} → raised e ≡ ok a → ⊥
raised_not_ok h = cc

-- A read or a difference, or an action that the chief asks for or has authorized.
abbrev pub IsPermitted : ToolPolicy → ToolRequest → Type 0
IsPermitted policy request =
    (request.action_type ≡ read_file)
    ⊎ ((request.action_type ≡ git_diff)
        ⊎ ((request.agent_id ≡ policy.chief_agent_id)
            ⊎ (request.authorized_by ≡ some policy.chief_agent_id)))

authorized_cases :
    (policy : ToolPolicy) (request : ToolRequest)
    → is_authorized policy request ≡ true
    → (request.agent_id ≡ policy.chief_agent_id)
      ⊎ (request.authorized_by ≡ some policy.chief_agent_id)
unfolding is_authorized
authorized_cases policy request h = elim (Option-cases request.authorized_by) [
  | inl nobody ↦ ground (arith, nobody, eq_iff request.agent_id policy.chief_agent_id)
  | inr (by, named) ↦
      ground (
        arith,
        named,
        eq_iff request.agent_id policy.chief_agent_id,
        eq_iff by policy.chief_agent_id,
      )
]

IsPermitted-action :
    (policy : ToolPolicy) (request : ToolRequest) (a : ToolActionType)
    → request.action_type ≡ a
    → (is_mutating a && not (is_authorized policy request)) ≡ false
    → IsPermitted policy request
IsPermitted-action policy request read_file same h = inl same
IsPermitted-action policy request git_diff same h = inr (inl same)
IsPermitted-action policy request _ same h =
    inr (inr (authorized_cases policy request (ground arith)))

validated_in :
    (policy : ToolPolicy) (host : Host) (request : ToolRequest) (root working_dir : List String)
    {d : PolicyDecision}
    → validate_in policy host request root working_dir ≡ ok d
    → d.allowed ≡ true
    → (is_subpath working_dir root ≡ true)
      × (host.is_directory working_dir ≡ true)
      × ((is_mutating request.action_type && not (is_authorized policy request)) ≡ false)
      × (validate_action policy host root request.action_type request.payload ≡ ok d)
validated_in policy host request root working_dir {d} h good = ground arith

-- An allowed request works in a directory inside the agent's worktree. Unless it reads a file or
-- shows a difference, the chief asks for it or has authorized it. The decision is that of the
-- checks that its action has of its own.
pub allowed_needs :
    (policy : ToolPolicy) (host : Host) (request : ToolRequest) (root : List String)
    {d : PolicyDecision}
    → validate policy host request root ≡ ok d
    → d.allowed ≡ true
    → (working_dir : List String) × (host.resolve request.working_dir ≡ ok working_dir)
      × (is_subpath working_dir root ≡ true)
      × (host.is_directory working_dir ≡ true)
      × IsPermitted policy request
      × (validate_action policy host root request.action_type request.payload ≡ ok d)
unfolding validate
allowed_needs policy host request root {d} h good =
    elim (Result-cases (host.resolve request.working_dir)) [
      | inr (x, e) ↦ absurd (raised_not_ok (rw (e, validate) at h))
      | inl (wd, e) ↦
          let (here, there, free, checked) =
            validated_in policy host request root wd {d = d} (rw (e, validate) at h) good in
          (
            wd,
            e,
            here,
            there,
            IsPermitted-action policy request request.action_type refl free,
            checked,
          )
    ]

pub decided_pass :
    {A : Type 0} (c : Checked A) (k : A → PolicyDecision) {d : PolicyDecision}
    → decide_by c k ≡ ok d
    → d.allowed ≡ true
    → (a : A) × (c ≡ pass a) × (k a ≡ d)
decided_pass (pass a) k h good = (a, refl, ok_inj h)
decided_pass (refuse (denial why)) k {d} h good =
    absurd (false≢true (ap (λ x. x.allowed) (ok_inj h) ∙ good))
decided_pass (refuse (exception x)) k h good = absurd (raised_not_ok h)

-- An argument that the policy lets through: not blank, and without shell metacharacters.
abbrev pub IsPlain : String → Type 0
IsPlain a = (is_blank a ≡ false) × (contains_any shell_metachars a ≡ false)

pub not_refused {ℓ} : {A : Type ℓ} {r : Stop} {a : A} → refuse r ≡ pass a → ⊥
not_refused h = cc

pub pass_inj {ℓ} : {A : Type ℓ} {a b : A} → pass a ≡ pass b → a ≡ b
pass_inj h = cc

check_arg-IsPlain : (v : Value) {a : String} → check_arg v ≡ pass a → (v ≡ str a) × IsPlain a
unfolding check_arg
check_arg-IsPlain v {a} h = ground arith

check_argv-All :
    (vs : List Value) {argv : List String}
    → check_argv vs ≡ pass argv
    → (vs ≡ map str argv) × All IsPlain argv
unfolding check_argv
check_argv-All [] {argv} h = ground arith
check_argv-All (v ∷ vs) {argv} h = elim (Checked-cases (check_arg v)) [
  | inr (r, e) ↦ ground (arith, e)
  | inl (a, e) ↦ elim (Checked-cases (check_argv vs)) [
    | inr (r, e') ↦ ground (arith, e, e')
    | inl (rest, e') ↦
        ground (arith, e, e', check_arg-IsPlain v {a = a} e, check_argv-All vs {argv = rest} e')
  ]
]

pub get-put_self : (k : String) (v : Value) (d : Fields) → get k (put k v d) ≡ v
unfolding get
get-put_self k v d = rw get?-put (ground (arith, eq_iff k k))

nonempty_list_items :
    (v : Value) {vs : List Value} → nonempty_list v ≡ pass vs → (as_list v ≡ some vs) × (vs ≢ [])
unfolding nonempty_list
nonempty_list_items v {vs} h = ground arith

-- What the checks of a command let through: an argument vector that is not empty, of plain
-- arguments, and that begins with an allowed prefix.
pub record IsSafeCommand (policy : ToolPolicy) (argv : List String) : Type 0 where
  pub nonempty : argv ≢ []
  pub plain : All IsPlain argv
  pub listed : any (λ p. begins_with p argv) policy.allowed_command_prefixes ≡ true

normalized_argv-IsPlain :
    (host : Host) (payload : Fields) {argv : List String}
    → normalized_argv host payload ≡ pass argv
    → (argv ≢ []) × All IsPlain argv
unfolding normalized_argv
normalized_argv-IsPlain host payload {argv} h = elim (Checked-cases (argv_of host payload)) [
  | inr (x, e) ↦ ground (arith, e)
  | inl (v, e) ↦ elim (Checked-cases (nonempty_list v)) [
    | inr (x, e') ↦ ground (arith, e, e')
    | inl (vs, e') ↦
        ground (arith, e, e', nonempty_list_items v {vs = vs} e', check_argv-All vs {argv = argv})
  ]
]

command_checks :
    (policy : ToolPolicy) (host : Host) (payload : Fields) {d : PolicyDecision}
    → validate_command_payload policy host payload ≡ ok d
    → d.allowed ≡ true
    → (argv : List String) × (d.normalized_payload ≡ field "argv" (strs argv) end)
      × IsSafeCommand policy argv
unfolding validate_command_payload decide_command command_is_whitelisted
command_checks policy host payload {d} h good =
    let (argv, e, made) =
      decided_pass (normalized_argv host payload) (decide_command policy) {d = d} h good in
    let (nonempty, plain) = normalized_argv-IsPlain host payload {argv = argv} e in
    elim (Bool-cases (any (λ p. begins_with p argv) policy.allowed_command_prefixes)) [
      | inl listed ↦ (
        argv,
        ap (λ x. x.normalized_payload) (sym (rw listed at made)),
        record { nonempty = nonempty; plain = plain; listed = listed },
      )
      | inr bad ↦ absurd (false≢true (ap (λ x. x.allowed) (rw bad at made) ∙ good))
    ]

-- An allowed command runs an argument vector that is not empty, has no blank argument and no shell
-- metacharacter, and begins with an allowed prefix; it is what the payload says from then on.
pub allowed_command :
    (policy : ToolPolicy) (host : Host) (root : List String) (payload : Fields) {d : PolicyDecision}
    → validate_action policy host root run_cmd payload ≡ ok d
    → d.allowed ≡ true
    → (argv : List String) × (get "argv" d.normalized_payload ≡ strs argv)
      × IsSafeCommand policy argv
unfolding validate_action
allowed_command policy host root payload {d} h good =
    elim (Result-cases (validate_command_payload policy host payload)) [
      | inr (x, e) ↦ absurd (raised_not_ok (rw e at h))
      | inl (c, e) ↦ elim (Bool-cases c.allowed) [
        | inr bad ↦ absurd (false≢true (ap (λ x. x.allowed) (ok_inj (rw (e, bad) at h)) ∙ good))
        | inl fine ↦
            let (argv, made, safe) = command_checks policy host payload {d = c} e fine in
            let result = ap (λ x. x.normalized_payload) (ok_inj (rw (e, fine) at h)) in
            (
              argv,
              rw (← result) (unfold update in rw made (get-put_self "argv" (strs argv) payload)),
              safe,
            )
      ]
    ]
