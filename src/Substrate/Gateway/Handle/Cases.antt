-- ===== src/Substrate/Gateway/Handle/Cases.antt =====
-- The ways in which `execute` can end, as one rule.
use app_shak_hq.Prelude.{
  Bool, Bool-cases, List, Option, Option-cases, String, [], arith, eq_iff, false, inl, inr, none,
  refl, some, true, ◌++◌, ◌∙◌, ◌∷◌, ◌≡◌, ◌≢◌, ◌⊎◌,
}
use app_shak_hq.Python.Text.{is_blank, strip}
use app_shak_hq.Python.Value.{Fields, Value, get, nonblank, truthy}
use app_shak_hq.Python.Exec.{Error, Result, Result-cases, ok, raised}
use app_shak_hq.Substrate.Types.{ToolRequest, ToolResult, value_of}
use app_shak_hq.Substrate.MailStore.Tables.{KeyRow, Store}
use app_shak_hq.Substrate.MailStore.Keys.{find_key, get_idempotency_record, reserve_idempotency_key}
use app_shak_hq.Substrate.Policy.{Host, PolicyDecision, validate}
use app_shak_hq.Substrate.Gateway.Execute.{System}
use app_shak_hq.Substrate.Gateway.Handle.{
  ToolGateway, decided, deny, execute_request, is_open_pr, keyed, perform, perform_once, root_of,
}
use app_shak_hq.Python.Text.Strip.{strip_idem, strip_nonblank}

nonblank_cases :
    (v : Value)
    → (nonblank v ≡ none) ⊎ ((s : String) × (nonblank v ≡ some s) × (is_blank s ≡ false))
nonblank_cases v = ground arith

-- the row that a reservation writes
abbrev pub key_row : ToolRequest → String → String → KeyRow
key_row r key now = record {
  idempotency_key = key;
  created_ts = now;
  agent_id = r.agent_id;
  action_type = value_of r.action_type;
  event_id = none;
  result = none;
}

abbrev pub with_key : ToolRequest → String → String → Store → Store
with_key r key now s = record s { keys = s.keys ++ key_row r key now ∷ [] }

-- an answer, the store and the world
abbrev pub Outcome : Type 0 → Type 0
Outcome W = Result ToolResult × Store × W

-- The request is refused with an audit row, and nothing else happens.
abbrev pub turned_down :
    {W : Type 0}
    → String
    → ToolRequest
    → String
    → Fields
    → Option String
    → Option Fields
    → Store
    → W
    → Outcome W
turned_down now r reason payload key result s w =
    (ok (deny r reason payload key result now s).0, (deny r reason payload key result now s).1, w)

record_found :
    (key : String) (s : Store)
    → strip key ≡ key
    → key ≢ ""
    → get_idempotency_record key s ≡ find_key key s.keys
unfolding get_idempotency_record
record_found key s st ne = rw st (ground (arith, eq_iff key ""))

reserve_free :
    (r : ToolRequest) (key now : String) (s : Store)
    → strip key ≡ key
    → key ≢ ""
    → find_key key s.keys ≡ none
    → reserve_idempotency_key key r.agent_id (value_of r.action_type) none now s
      ≡ ok (true, with_key r key now s)
unfolding reserve_idempotency_key
reserve_free r key now s st ne free = rw (st, free) (ground (arith, eq_iff key ""))

module _ {W : Type 0} (sys : System W) (host : Host) (now : String) where
  abbrev pub performed : ToolRequest → String → Bool → Fields → Store → W → Outcome W
  performed r key dup payload s w =
      let (t, s', w') = perform sys host now r key dup payload s w in (ok t, s', w')

  module _ (P : Outcome W → Type 0) (r : ToolRequest) (s : Store) (w : W) where
    keyed_cases :
        (key : String) (dup : Bool) (payload : Fields)
        → strip key ≡ key
        → key ≢ ""
        → ((reason : String) (d : Fields) (k : Option String) (result : Option Fields)
            → P (turned_down now r reason d k result s w))
        → (dup ≡ true → P (performed r key true payload s w))
        → (dup ≡ false
            → find_key key s.keys ≡ none
            → P (performed r key false payload (with_key r key now s) w))
        → P (keyed sys host now r key dup payload s w)
    unfolding keyed
    keyed_cases key true payload st ne refuse_case dup_case once_case = dup_case refl
    keyed_cases key false payload st ne refuse_case dup_case once_case =
        elim (Option-cases (find_key key s.keys)) [
          | inl free ↦
              rw (record_found key s st ne ∙ free, keyed)
                (rw (reserve_free r key now s st ne free, perform_once) (once_case refl free))
          | inr (k, found) ↦ rw (record_found key s st ne ∙ found, keyed) (refuse_case _ _ _ _)
        ]

    decided_cases :
        (key : String) (decision : PolicyDecision)
        → strip key ≡ key
        → key ≢ ""
        → ((reason : String) (d : Fields) (k : Option String) (result : Option Fields)
            → P (turned_down now r reason d k result s w))
        → (decision.allowed ≡ true
            → truthy (get "allow_duplicate" r.payload) ≡ true
            → P (performed r key true decision.normalized_payload s w))
        → (decision.allowed ≡ true
            → truthy (get "allow_duplicate" r.payload) ≡ false
            → find_key key s.keys ≡ none
            → P (performed r key false decision.normalized_payload (with_key r key now s) w))
        → P (decided sys host now r key decision s w)
    unfolding decided
    decided_cases key decision st ne refuse_case dup_case once_case =
        elim (Bool-cases decision.allowed) [
          | inr bad ↦ rw bad (refuse_case _ _ _ _)
          | inl good ↦ elim (Bool-cases (is_open_pr sys host now r.action_type)) [
            | inl pr ↦ rw (good, pr) (refuse_case _ _ _ _)
            | inr other ↦
                rw (good, other)
                  (keyed_cases key (truthy (get "allow_duplicate" r.payload))
                    decision.normalized_payload st ne refuse_case (dup_case good) (once_case good))
          ]
        ]

    -- A request is turned down, or the policy raises, or it is performed: with duplicates allowed, or
    -- after its key has been entered in the table, where it was not.
    pub execute_request_cases :
        (g : ToolGateway)
        → ((reason : String) (d : Fields) (k : Option String) (result : Option Fields)
            → P (turned_down now r reason d k result s w))
        → ((root : List String) (e : Error)
            → root_of r.agent_id g.workspace_roots ≡ some root
            → validate g.policy host r root ≡ raised e
            → P (raised e, s, w))
        → ((raw : String) (root : List String) (d : PolicyDecision)
            → nonblank (get "idempotency_key" r.payload) ≡ some raw
            → root_of r.agent_id g.workspace_roots ≡ some root
            → validate g.policy host r root ≡ ok d
            → d.allowed ≡ true
            → truthy (get "allow_duplicate" r.payload) ≡ true
            → P (performed r (strip raw) true d.normalized_payload s w))
        → ((raw : String) (root : List String) (d : PolicyDecision)
            → nonblank (get "idempotency_key" r.payload) ≡ some raw
            → root_of r.agent_id g.workspace_roots ≡ some root
            → validate g.policy host r root ≡ ok d
            → d.allowed ≡ true
            → truthy (get "allow_duplicate" r.payload) ≡ false
            → find_key (strip raw) s.keys ≡ none
            → P (
                performed r
                  (strip raw)
                  false
                  d.normalized_payload
                  (with_key r (strip raw) now s)
                  w))
        → P (execute_request sys host now g r s w)
    unfolding execute_request
    execute_request_cases g refuse_case raise_case dup_case once_case =
        elim (nonblank_cases (get "idempotency_key" r.payload)) [
          | inl missing ↦ rw (missing, execute_request) (refuse_case _ _ _ _)
          | inr (raw, has_key, filled_key) ↦
              elim (Option-cases (root_of r.agent_id g.workspace_roots)) [
                | inl homeless ↦
                    rw (has_key, execute_request)
                      (rw (homeless, execute_request) (refuse_case _ _ _ _))
                | inr (root, rooted) ↦ elim (Result-cases (validate g.policy host r root)) [
                  | inr (e, failed) ↦
                      rw (has_key, execute_request)
                        (rw (rooted, execute_request)
                          (rw (failed, execute_request) (raise_case root e rooted failed)))
                  | inl (d, judged) ↦
                      rw (has_key, execute_request)
                        (rw (rooted, execute_request)
                          (rw (judged, execute_request)
                            (decided_cases (strip raw) d (strip_idem raw)
                              (strip_nonblank raw filled_key) refuse_case
                              (dup_case raw root d has_key rooted judged)
                              (once_case raw root d has_key rooted judged))))
                ]
              ]
        ]
