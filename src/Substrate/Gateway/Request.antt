-- ===== src/Substrate/Gateway/Request.antt =====
-- `_coerce_request`. What a caller hands in is a request, a dictionary, or something else.
use app_shak_hq.Prelude.{
  Option, String, if◌then◌else◌, nat_eq, none, refl, some, string_eq, ◌==◌, ◌≡◌,
}
use app_shak_hq.Python.Text.{strip, upper}
use app_shak_hq.Python.Value.{Fields, Value, end, get, get?, null, obj, str}
use app_shak_hq.Python.Exec.{Result, ok, raised, type_error, value_error, ◌>>=◌}
use app_shak_hq.Substrate.Types.{
  ToolActionType, ToolRequest, git_commit, git_diff, open_pr, read_file, run_cmd, value_of,
  write_file,
}

pub data RawRequest : Type 0 where
  is_request : ToolRequest → RawRequest
  is_dict : Fields → RawRequest
  not_request : RawRequest

-- `ToolActionType(text)`
unfoldable pub action_named : String → Option ToolActionType
action_named s =
    if s == "RUN_CMD"
    then some run_cmd
    else if s == "WRITE_FILE"
    then some write_file
    else if s == "READ_FILE"
    then some read_file
    else if s == "GIT_COMMIT"
    then some git_commit
    else if s == "GIT_DIFF"
    then some git_diff
    else if s == "OPEN_PR"
    then some open_pr
    else none

unfoldable pub coerce_action : Value → Result ToolActionType
unfolding action_named
coerce_action (str s) = elim (action_named (upper (strip s))) [
  | some a ↦ ok a
  | none ↦ raised (value_error "not a valid ToolActionType")
]
coerce_action _ = raised (value_error "Tool request requires action_type.")

-- `str(value)`; `show` prints what is no text
abbrev pub text_of : (Value → String) → Value → String
text_of show (str s) = s
text_of show v = show v

abbrev pub text_or_empty : (Value → String) → Option Value → String
text_or_empty show none = ""
text_or_empty show (some v) = text_of show v

-- `str(value) if value is not None else None`
abbrev optional_text : (Value → String) → Value → Option String
optional_text show null = none
optional_text show v = some (text_of show v)

abbrev dict_or_empty : Option Value → Fields
dict_or_empty (some (obj d)) = d
dict_or_empty _ = end

unfoldable pub coerce_request : (Value → String) → RawRequest → Result ToolRequest
unfolding coerce_action
coerce_request show (is_request r) = ok r
coerce_request show (is_dict d) = do
  action ← coerce_action (get "action_type" d)
  ok (record {
    agent_id = text_or_empty show (get? "agent_id" d);
    action_type = action;
    working_dir = text_or_empty show (get? "working_dir" d);
    payload = dict_or_empty (get? "payload" d);
    authorized_by = optional_text show (get "authorized_by" d);
    correlation_id = optional_text show (get "correlation_id" d);
  })
coerce_request show not_request = raised (type_error "Unsupported tool request type")

-- Every action's own name is read back as the action.
pub action_named-value_of : (a : ToolActionType) → action_named (value_of a) ≡ some a
unfolding action_named
action_named-value_of run_cmd = refl
action_named-value_of write_file = refl
action_named-value_of read_file = refl
action_named-value_of git_commit = refl
action_named-value_of git_diff = refl
action_named-value_of open_pr = refl
