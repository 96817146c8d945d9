-- ===== src/Substrate/Policy.antt =====
-- appshak_substrate/policy.py: the mechanical checks of a tool request.
-- The file system's answers and `shlex.split` come from outside, as the record `Host`: a path is
-- the list of its parts, `resolve` is `Path(text).resolve()` and `join` is `(root / text).resolve()`,
-- with what they raise (a ValueError for a text with a NUL), and `split_command` is
-- `shlex.split(command, posix=False)`, `none` where that raises ValueError.
pub mod Allowed
pub mod Inside
pub mod Causes
pub mod Raises
use app_shak_hq.Prelude.{
  Bool, List, Option, String, [], any, false, if◌then◌else◌, inl, inr, map, nat_eq, none, not, refl,
  some, string_eq, true, ◌&&◌, ◌==◌, ◌||◌, ◌∷◌, ◌≡◌, ◌⊎◌,
}
use app_shak_hq.Python.Text.{concat, contains_any}
use app_shak_hq.Python.Value.{
  Fields, Value, arr, arr_of, as_list, end, field, get, get?, nonblank, null, put, str, update,
}
use app_shak_hq.Python.Exec.{Error, Result, ok, raised, ◌>>◌}
use app_shak_hq.Substrate.Types.{
  ToolActionType, ToolRequest, git_commit, git_diff, open_pr, run_cmd, write_file,
}

pub record Host : Type 0 where
  pub resolve : String → Result (List String)
  pub join : List String → String → Result (List String)
  pub is_directory : List String → Bool
  pub path_text : List String → String
  pub split_command : String → Option (List String)

pub record PolicyDecision : Type 0 where
  pub allowed : Bool
  pub reason : String
  pub normalized_payload : Fields

pub record ToolPolicy : Type 0 where
  pub chief_agent_id : String
  pub allowed_command_prefixes : List (List String)

-- `_SHELL_METACHAR_PATTERN`
abbrev pub shell_metachars : String
shell_metachars = ";&|><`$"

abbrev pub default_allowed_command_prefixes : List (List String)
default_allowed_command_prefixes =
    ("git" ∷ "status" ∷ [])
    ∷ ("git" ∷ "diff" ∷ [])
    ∷ ("git" ∷ "add" ∷ [])
    ∷ ("git" ∷ "commit" ∷ [])
    ∷ ("git" ∷ "apply" ∷ [])
    ∷ ("git" ∷ "format-patch" ∷ [])
    ∷ ("git" ∷ "rev-parse" ∷ [])
    ∷ ("pytest" ∷ [])
    ∷ ("python" ∷ "-m" ∷ "pytest" ∷ [])
    ∷ ("python" ∷ "-m" ∷ "unittest" ∷ [])
    ∷ []

-- `allowed_command_prefixes or DEFAULT_ALLOWED_COMMAND_PREFIXES`
unfoldable pub new_policy : String → List (List String) → ToolPolicy
new_policy chief [] = record {
  chief_agent_id = chief;
  allowed_command_prefixes = default_allowed_command_prefixes;
}
new_policy chief (p ∷ ps) = record { chief_agent_id = chief; allowed_command_prefixes = p ∷ ps }

-- `_MUTATING_ACTIONS`
abbrev pub is_mutating : ToolActionType → Bool
is_mutating run_cmd = true
is_mutating write_file = true
is_mutating git_commit = true
is_mutating open_pr = true
is_mutating _ = false

-- `tuple(argv[: len(prefix)]) == prefix`
unfoldable pub begins_with : List String → List String → Bool
begins_with [] argv = true
begins_with (p ∷ ps) [] = false
begins_with (p ∷ ps) (a ∷ argv) = a == p && begins_with ps argv

-- `candidate.relative_to(root)` does not raise
unfoldable pub is_subpath : List String → List String → Bool
unfolding begins_with
is_subpath candidate root = begins_with root candidate

unfoldable pub command_is_whitelisted : ToolPolicy → List String → Bool
unfolding begins_with
command_is_whitelisted policy argv = any (λ p. begins_with p argv) policy.allowed_command_prefixes

-- why the checks do not go on: they deny the request, or they raise
pub data Stop : Type 0 where
  denial : String → Stop
  exception : Error → Stop

-- a loop that returns the normalized entries, or ends before
pub data Checked {ℓ} (A : Type ℓ) : Type ℓ where
  pass : A → Checked A
  refuse : Stop → Checked A

-- the result of a call that may raise
abbrev pub check_result {ℓ} : {A : Type ℓ} → Result A → Checked A
check_result (ok a) = pass a
check_result (raised e) = refuse (exception e)

infixl 10 ◌>>=◌
abbrev pub ◌>>=◌ {ℓ κ} : {A : Type ℓ} {B : Type κ} → Checked A → (A → Checked B) → Checked B
pass a >>= f = f a
refuse r >>= f = refuse r

pub Checked-cases {ℓ} :
    {A : Type ℓ} (c : Checked A) → ((a : A) × (c ≡ pass a)) ⊎ ((r : Stop) × (c ≡ refuse r))
Checked-cases (pass a) = inl (a, refl)
Checked-cases (refuse r) = inr (r, refl)

check_arg : Value → Checked String
check_arg v = elim (nonblank v) [
  | none ↦ refuse (denial "RUN_CMD argv entries must be non-empty strings.")
  | some arg ↦
      if contains_any shell_metachars arg
      then refuse (denial (concat "RUN_CMD denied due to shell metacharacters in argument: " arg))
      else pass arg
]

unfoldable pub check_argv : List Value → Checked (List String)
unfolding check_arg
check_argv [] = pass []
check_argv (v ∷ vs) = do arg ← check_arg v; rest ← check_argv vs; pass (arg ∷ rest)

denied : String → PolicyDecision
denied why = record { allowed = false; reason = why; normalized_payload = end }

granted : String → Fields → PolicyDecision
granted why payload = record { allowed = true; reason = why; normalized_payload = payload }

abbrev pub decide_by {ℓ} : {A : Type ℓ} → Checked A → (A → PolicyDecision) → Result PolicyDecision
decide_by (pass a) k = ok (k a)
decide_by (refuse (denial why)) k =
    ok (record { allowed = false; reason = why; normalized_payload = end })
decide_by (refuse (exception e)) k = raised e

abbrev pub strs : List String → Value
strs argv = arr (arr_of (map str argv))

abbrev head_of : List String → String
head_of [] = ""
head_of (a ∷ _) = a

-- the argument vector of a payload: `argv`, or the split command if there is none
unfoldable pub argv_of : Host → Fields → Checked Value
argv_of host payload = elim (get "argv" payload) [
  | null ↦ elim (nonblank (get "command" payload)) [
    | none ↦ refuse (denial "RUN_CMD requires payload.argv or payload.command.")
    | some command ↦ elim (host.split_command command) [
      | none ↦ refuse (denial "RUN_CMD payload.command could not be parsed safely.")
      | some argv ↦ pass (strs argv)
    ]
  ]
  | v ↦ pass v
]

unfoldable pub nonempty_list : Value → Checked (List Value)
nonempty_list v = elim (as_list v) [
  | some (x ∷ xs) ↦ pass (x ∷ xs)
  | _ ↦ refuse (denial "RUN_CMD payload.argv must be a non-empty list.")
]

-- the argument vector after the checks of its entries
unfoldable pub normalized_argv : Host → Fields → Checked (List String)
normalized_argv host payload = do v ← argv_of host payload; vs ← nonempty_list v; check_argv vs

unfoldable pub decide_command : ToolPolicy → List String → PolicyDecision
unfolding denied granted
decide_command policy argv =
    if command_is_whitelisted policy argv
    then granted "RUN_CMD command policy checks passed." (field "argv" (strs argv) end)
    else denied (concat "RUN_CMD denied: command not in whitelist (" (concat (head_of argv) ")."))

unfoldable pub validate_command_payload : ToolPolicy → Host → Fields → Result PolicyDecision
validate_command_payload policy host payload =
    decide_by (normalized_argv host payload) (decide_command policy)

abbrev pub inside : List String → List String → Option (List String)
inside root candidate = if is_subpath candidate root then some candidate else none

unfoldable pub resolve_path : Host → List String → String → Checked (Option (List String))
resolve_path host root requested = do
  candidate ← check_result (host.join root requested)
  pass (inside root candidate)

-- the text of the resolved path, or the refusal where it lies outside
abbrev pub path_or : Host → Stop → Checked (Option (List String)) → Checked String
path_or host otherwise (refuse stop) = refuse stop
path_or host otherwise (pass none) = refuse otherwise
path_or host otherwise (pass (some p)) = pass (host.path_text p)

check_path : Host → List String → Value → Checked String
check_path host root v = elim (nonblank v) [
  | none ↦ refuse (denial "GIT_COMMIT paths entries must be non-empty strings.")
  | some item ↦
      path_or host (denial (concat "GIT_COMMIT path escapes worktree root: " item))
        (resolve_path host root item)
]

unfoldable pub check_paths : Host → List String → List Value → Checked (List String)
unfolding check_path
check_paths host root [] = pass []
check_paths host root (v ∷ vs) = do
  p ← check_path host root v
  rest ← check_paths host root vs
  pass (p ∷ rest)

-- `payload.get("paths", [])`, which must be a list
unfoldable pub listed_paths : Option Value → Checked (List Value)
listed_paths none = pass []
listed_paths (some v) = elim (as_list v) [
  | some vs ↦ pass vs
  | none ↦ refuse (denial "GIT_COMMIT payload.paths must be a list.")
]

-- the paths to commit after the checks of the entries
unfoldable pub normalized_paths : Host → List String → Fields → Checked (List String)
normalized_paths host root payload = do
  vs ← listed_paths (get? "paths" payload)
  check_paths host root vs

-- the path of a file action after its check
unfoldable pub file_path : Host → List String → Fields → Checked String
file_path host root payload = elim (nonblank (get "path" payload)) [
  | none ↦ refuse (denial "File actions require a non-empty payload.path.")
  | some requested ↦
      path_or host (denial "File path escapes worktree root.") (resolve_path host root requested)
]

abbrev pub with_command : Fields → Result PolicyDecision → Result PolicyDecision
with_command payload (raised e) = raised e
with_command payload (ok decision) =
    if decision.allowed
    then ok (record {
      allowed = true;
      reason = "RUN_CMD policy checks passed.";
      normalized_payload = update payload decision.normalized_payload;
    })
    else ok decision

-- the part of `validate` that each action has of its own
unfoldable pub validate_action :
    ToolPolicy → Host → List String → ToolActionType → Fields → Result PolicyDecision
unfolding denied granted file_path
validate_action policy host root run_cmd payload =
    with_command payload (validate_command_payload policy host payload)
validate_action policy host root git_commit payload = elim (nonblank (get "message" payload)) [
  | none ↦ ok (denied "GIT_COMMIT requires a non-empty commit message.")
  | some _ ↦
      decide_by (normalized_paths host root payload)
        λ paths. granted "GIT_COMMIT policy checks passed." (put "paths" (strs paths) payload)
]
validate_action policy host root git_diff payload =
    ok (granted "GIT_DIFF policy checks passed." payload)
validate_action policy host root open_pr payload =
    ok (granted "OPEN_PR policy checks passed." payload)
validate_action policy host root _ payload =
    decide_by (file_path host root payload)
      λ path. granted "File path policy checks passed." (put "path" (str path) payload)

abbrev is_text : String → Option String → Bool
is_text s none = false
is_text s (some t) = t == s

-- the chief asks, or has authorized the request
unfoldable pub is_authorized : ToolPolicy → ToolRequest → Bool
is_authorized policy request =
    request.agent_id == policy.chief_agent_id || is_text policy.chief_agent_id request.authorized_by

-- the checks in the resolved working directory
abbrev pub validate_in :
    ToolPolicy → Host → ToolRequest → List String → List String → Result PolicyDecision
validate_in policy host request root working_dir =
    if not (is_subpath working_dir root)
    then ok (record {
      allowed = false;
      reason = "working_dir must be inside agent worktree.";
      normalized_payload = end;
    })
    else if not (host.is_directory working_dir)
    then ok (record {
      allowed = false;
      reason = "working_dir must exist and be a directory.";
      normalized_payload = end;
    })
    else if is_mutating request.action_type && not (is_authorized policy request)
    then ok (record {
      allowed = false;
      reason = "Mutating external actions require Chief authorization.";
      normalized_payload = end;
    })
    else validate_action policy host root request.action_type request.payload

unfoldable pub validate : ToolPolicy → Host → ToolRequest → List String → Result PolicyDecision
unfolding is_authorized is_subpath
validate policy host request root = elim (host.resolve request.working_dir) [
  | raised e ↦ raised e
  | ok working_dir ↦ validate_in policy host request root working_dir
]
