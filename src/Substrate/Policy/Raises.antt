-- ===== src/Substrate/Policy/Raises.antt =====
-- What `validate` raises: only the errors of resolving the request's paths.
use app_shak_hq.Prelude.{
  Bool, List, Option-cases, ap, String, not, subst, ◌&&◌, ◌∙◌, ◌⊎◌, false, if◌then◌else◌, inl, inr,
  refl, true, ◌≡◌,
}
use app_shak_hq.Substrate.Types.{
  ToolActionType, ToolRequest, git_commit, git_diff, open_pr, read_file, run_cmd, write_file,
}
use app_shak_hq.Python.Value.{Fields, get, nonblank}
use app_shak_hq.Python.Exec.{Error, Result, Result-cases, ok, raised}
use app_shak_hq.Substrate.Policy.{
  Checked, PolicyDecision, decide_by, denial, exception, normalized_argv, pass, refuse, file_path,
  normalized_paths, Host, ToolPolicy, validate, validate_action, validate_command_payload,
  validate_in, with_command, decide_command, is_authorized, is_mutating, is_subpath,
}
use app_shak_hq.Substrate.Policy.Causes.{
  IsCaused, IsJoinError, normalized_argv-IsCaused, file_path-IsCaused, normalized_paths-IsCaused,
}

-- The same of a result.
abbrev IsRaisedAs {ℓ} : {A : Type ℓ} → (Error → Type 0) → Result A → Type 0
IsRaisedAs P (ok a) = Unit {0}
IsRaisedAs P (raised e) = P e

decide_by-IsRaisedAs {ℓ} :
    {A : Type ℓ} (P : Error → Type 0) (c : Checked A) (k : A → PolicyDecision)
    → IsCaused P c
    → IsRaisedAs P (decide_by c k)
decide_by-IsRaisedAs P (pass a) k h = tt
decide_by-IsRaisedAs P (refuse (denial why)) k h = tt
decide_by-IsRaisedAs P (refuse (exception e)) k h = h

if-IsRaisedAs {ℓ} :
    {A : Type ℓ} (P : Error → Type 0) (b : Bool) (c d : Result A)
    → IsRaisedAs P c
    → IsRaisedAs P d
    → IsRaisedAs P (if b then c else d)
if-IsRaisedAs P true c d hc hd = hc
if-IsRaisedAs P false c d hc hd = hd

with_command-IsRaisedAs :
    (P : Error → Type 0) (payload : Fields) (r : Result PolicyDecision)
    → IsRaisedAs P r
    → IsRaisedAs P (with_command payload r)
with_command-IsRaisedAs P payload (raised e) h = h
with_command-IsRaisedAs P payload (ok decision) h =
    if-IsRaisedAs P decision.allowed _ (ok decision) tt tt

validate_action-IsRaisedAs :
    (policy : ToolPolicy) (host : Host) (root : List String) (a : ToolActionType) (payload : Fields)
    → IsRaisedAs (IsJoinError host root) (validate_action policy host root a payload)
unfolding validate_action validate_command_payload
validate_action-IsRaisedAs policy host root run_cmd payload =
    with_command-IsRaisedAs (IsJoinError host root) payload _ (
      decide_by-IsRaisedAs (IsJoinError host root) (normalized_argv host payload)
        (decide_command policy) (normalized_argv-IsCaused (IsJoinError host root) host payload))
validate_action-IsRaisedAs policy host root git_commit payload =
    elim (Option-cases (nonblank (get "message" payload))) [
      | inl e ↦ rw (e, validate_action) tt
      | inr (message, e) ↦
          rw (e, validate_action)
            (decide_by-IsRaisedAs (IsJoinError host root) (normalized_paths host root payload) _
              (normalized_paths-IsCaused host root payload))
    ]
validate_action-IsRaisedAs policy host root git_diff payload = tt
validate_action-IsRaisedAs policy host root open_pr payload = tt
validate_action-IsRaisedAs policy host root read_file payload =
    decide_by-IsRaisedAs (IsJoinError host root) (file_path host root payload) _
      (file_path-IsCaused host root payload)
validate_action-IsRaisedAs policy host root write_file payload =
    decide_by-IsRaisedAs (IsJoinError host root) (file_path host root payload) _
      (file_path-IsCaused host root payload)

validate_in-IsRaisedAs :
    (policy : ToolPolicy) (host : Host) (request : ToolRequest) (root working_dir : List String)
    → IsRaisedAs (IsJoinError host root) (validate_in policy host request root working_dir)
validate_in-IsRaisedAs policy host request root working_dir =
    let P = IsJoinError host root in
    let last = validate_action-IsRaisedAs policy host root request.action_type request.payload in
    let authorized = not (is_authorized policy request) in
    if-IsRaisedAs P (not (is_subpath working_dir root)) _ _ tt (
      if-IsRaisedAs P (not (host.is_directory working_dir)) _ _ tt
        (if-IsRaisedAs P (is_mutating request.action_type && authorized) _ _ tt last))

raised_inj {ℓ} : {A : Type ℓ} {r : Result A} {d e : Error} → r ≡ raised d → r ≡ raised e → d ≡ e
raised_inj h g = cc

-- The policy raises only what resolving the working directory, or a text below the root, raises.
pub validate-raises :
    (policy : ToolPolicy) (host : Host) (request : ToolRequest) (root : List String) {e : Error}
    → validate policy host request root ≡ raised e
    → (host.resolve request.working_dir ≡ raised e) ⊎ IsJoinError host root e
unfolding validate
validate-raises policy host request root {e} h =
    elim (Result-cases (host.resolve request.working_dir)) [
      | inr (x, failed) ↦
          let same : x ≡ e = raised_inj (rw (failed, validate) refl) h in
          inl (failed ∙ ap (λ y. raised y) same)
      | inl (working_dir, found) ↦ inr (
          subst (IsRaisedAs (IsJoinError host root)) (rw (found, validate) at h)
            (validate_in-IsRaisedAs policy host request root working_dir))
    ]
