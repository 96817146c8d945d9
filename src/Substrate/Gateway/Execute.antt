-- ===== src/Substrate/Gateway/Execute.antt =====
-- `_execute_allowed`. Processes and files are outside: the record `System`
-- acts on a world of its own, and an action may raise.
use app_shak_hq.Prelude.{
  Bool, List, Option, String, [], if◌then◌else◌, map, none, not, some, true, zero, ◌∷◌,
}
use app_shak_hq.Python.Text.{concat, count_chars}
use app_shak_hq.Python.Value.{Fields, Value, arr, as_list, as_str, get, get?, int, items, pos, ℤ}
use app_shak_hq.Python.Exec.{Error, Result, ok, raised, runtime_error, value_error, ◌>>=◌}
use app_shak_hq.Substrate.Types.{
  ToolActionType, ToolRequest, ToolResult, git_commit, git_diff, open_pr, read_file, run_cmd,
  write_file,
}
use app_shak_hq.Substrate.Gateway.Request.{text_of, text_or_empty}

-- what `subprocess.run` returns
pub record Process : Type 0 where
  pub stdout : String
  pub stderr : String
  pub return_code : ℤ

pub record System (W : Type 0) : Type 0 where
  pub run_process : List String → String → W → Result Process × W
  -- make the parent directories and write the text
  pub write_text : String → String → W → Result (Unit {0}) × W
  pub exists : String → W → Bool
  pub read_text : String → W → Result String × W
  -- `str(value)` of what is no text, `repr(exc)` and `str(exc)`
  pub show : Value → String
  pub repr_error : Error → String
  pub show_error : Error → String
  -- what SQLite keeps of a value that is no text in a column of texts, or what `sqlite3` raises
  pub bind_text : Value → Result String

abbrev result_of : ToolRequest → String → String → ℤ → String → ToolResult
result_of r out err code reason = record {
  allowed = true;
  action_type = r.action_type;
  agent_id = r.agent_id;
  working_dir = r.working_dir;
  stdout = out;
  stderr = err;
  return_code = some code;
  error = none;
  reason = some reason;
  audit_event_id = none;
  correlation_id = r.correlation_id;
}

-- `payload[key]` of a key whose value the policy has made a text
abbrev text_at : String → Fields → Result String
text_at key d = elim (as_str (get key d)) [
  | some s ↦ ok s
  | none ↦ raised (runtime_error "KeyError")
]

-- `result.returncode if … != 0 else …`
abbrev code_of : ℤ → ℤ → ℤ
code_of (pos zero) other = other
code_of code other = code

abbrev listed : Option Value → List Value
listed (some (arr vs)) = items vs
listed _ = []

module _ {W : Type 0} (sys : System W) where
  -- the argument vector is one of texts after the policy's checks
  texts : List Value → List String
  texts vs = map (text_of sys.show) vs

  run_cmd_action : ToolRequest → Fields → W → Result ToolResult × W
  unfolding texts
  run_cmd_action r payload w = elim (as_list (get "argv" payload)) [
    | some (v ∷ vs) ↦
        let (p, w') = sys.run_process (texts (v ∷ vs)) r.working_dir w in
        (
          (do
            proc ← p
            ok (result_of r proc.stdout proc.stderr proc.return_code "RUN_CMD executed.")),
          w',
        )
    | _ ↦ (raised (value_error "RUN_CMD requires normalized argv list."), w)
  ]

  write_file_action : ToolRequest → Fields → W → Result ToolResult × W
  write_file_action r payload w = elim (text_at "path" payload) [
    | raised e ↦ (raised e, w)
    | ok path ↦
        let text = text_or_empty sys.show (get? "content" payload) in
        let (done, w') = sys.write_text path text w in
        let note =
          concat "Wrote "
            (concat (sys.show (int (pos (count_chars text)))) (concat " bytes to " path)) in
        ((do _ ← done; ok (result_of r note "" (pos 0) "WRITE_FILE executed.")), w')
  ]

  read_file_action : ToolRequest → Fields → W → Result ToolResult × W
  read_file_action r payload w = elim (text_at "path" payload) [
    | raised e ↦ (raised e, w)
    | ok path ↦
        if not (sys.exists path w)
        then (
          ok (
              result_of r "" (concat "File does not exist: " path) (pos 1)
                "READ_FILE target missing."),
          w,
        )
        else let (content, w') = sys.read_text path w in
          ((do text ← content; ok (result_of r text "" (pos 0) "READ_FILE executed.")), w')
  ]

  git_commit_files : ToolRequest → String → Fields → W → Result ToolResult × W
  unfolding texts
  git_commit_files r message payload w =
      let add_cmd = "git" ∷ "add" ∷ "--" ∷ texts (listed (get? "paths" payload)) in
      let (added, w1) = sys.run_process add_cmd r.working_dir w in
      elim added [
        | raised e ↦ (raised e, w1)
        | ok add ↦
            let (committed, w2) =
              sys.run_process ("git" ∷ "commit" ∷ "-m" ∷ message ∷ []) r.working_dir w1 in
            (
              (do
                commit ← committed
                ok (
                    result_of r (concat add.stdout commit.stdout) (concat add.stderr commit.stderr)
                      (code_of commit.return_code add.return_code) "GIT_COMMIT executed.")),
              w2,
            )
      ]

  git_commit_action : ToolRequest → Fields → W → Result ToolResult × W
  unfolding git_commit_files
  git_commit_action r payload w = elim (get? "message" payload) [
    | none ↦ (raised (runtime_error "KeyError"), w)
    | some message ↦ git_commit_files r (text_of sys.show message) payload w
  ]

  git_diff_action : ToolRequest → Fields → W → Result ToolResult × W
  unfolding texts
  git_diff_action r payload w =
      let args = texts (listed (get? "args" payload)) in
      let (p, w') = sys.run_process ("git" ∷ "diff" ∷ args) r.working_dir w in
      (
        (do
          proc ← p
          ok (result_of r proc.stdout proc.stderr proc.return_code "GIT_DIFF executed.")),
        w',
      )

  unfoldable pub execute_allowed : ToolRequest → ToolActionType → Fields → W → Result ToolResult × W
  unfolding run_cmd_action write_file_action read_file_action git_commit_action git_diff_action
  execute_allowed r run_cmd payload w = run_cmd_action r payload w
  execute_allowed r write_file payload w = write_file_action r payload w
  execute_allowed r read_file payload w = read_file_action r payload w
  execute_allowed r git_commit payload w = git_commit_action r payload w
  execute_allowed r git_diff payload w = git_diff_action r payload w
  execute_allowed r open_pr payload w = (raised (value_error "Unsupported action type: OPEN_PR"), w)
