-- ===== src/Substrate/Gateway/Handle/AtMostOnce.antt =====
-- Requests with the same idempotency key.
use mathlib.Core.Bool.{false≢true}
use app_shak_hq.Prelude.{
  Bool, List, String, arith, eq_iff, false, inl, inr, is_some, refl, some, some_inj, sym, true, ◌∙◌,
  ◌≡◌, ◌⊎◌,
}
use app_shak_hq.Python.Text.{strip}
use app_shak_hq.Python.Value.{Fields, end, field, get, nonblank, str, truthy}
use app_shak_hq.Python.Exec.{Error, Result-cases, ok, raised}
use app_shak_hq.Substrate.Types.{ToolRequest, ToolResult}
use app_shak_hq.Substrate.MailStore.Tables.{Store}
use app_shak_hq.Substrate.MailStore.Keys.{find_key, set_idempotency_result}
use app_shak_hq.Substrate.MailStore.Audit.{append_tool_audit}
use app_shak_hq.Substrate.Policy.{Host}
use app_shak_hq.Substrate.Gateway.Execute.{System, execute_allowed}
use app_shak_hq.Substrate.Gateway.Handle.{
  ToolGateway, deny, execute_request, finish, note_result, perform, result_payload,
}
use app_shak_hq.Substrate.Gateway.Handle.Cases.{Outcome, execute_request_cases, performed, with_key}
use app_shak_hq.Substrate.MailStore.History.{Call, run}
use app_shak_hq.Substrate.MailStore.Once.{
  IsReserved, find_key-append, find_key-set_key_result, run-IsReserved,
}

module _ {W : Type 0} (sys : System W) (host : Host) (now : String) where
  note_result-IsReserved :
      (k key : String) (dup : Bool) (d : Fields) (s : Store)
      → IsReserved k s
      → IsReserved k (note_result dup key d s)
  unfolding set_idempotency_result
  note_result-IsReserved k key dup d s h =
      ground (arith, find_key-set_key_result k (strip key) d s.keys)

  performed-IsReserved :
      (r : ToolRequest) (k key : String) (dup : Bool) (d : Fields) (s : Store) (w : W)
      → IsReserved k s
      → IsReserved k (performed sys host now r key dup d s w).1
  unfolding perform append_tool_audit
  performed-IsReserved r k key dup d s w h =
      elim (Result-cases (execute_allowed sys r r.action_type d w).0) [
        | inl (t, e) ↦ rw (e, finish) (note_result-IsReserved k key dup (result_payload t) s h)
        | inr (x, e) ↦
            rw (e, finish)
              (note_result-IsReserved k key dup (field "error" (str (sys.repr_error x)) end) s h)
      ]

  -- A request that forbids duplicates has left the world as it was, or its key is in the table.
  IsReserved-or_untouched :
      (g : ToolGateway) (r : ToolRequest) (s : Store) (w : W) (raw : String)
      → nonblank (get "idempotency_key" r.payload) ≡ some raw
      → truthy (get "allow_duplicate" r.payload) ≡ false
      → ((execute_request sys host now g r s w).2 ≡ w)
        ⊎ IsReserved (strip raw) (execute_request sys host now g r s w).1
  IsReserved-or_untouched g r s w raw has_key once =
      execute_request_cases sys host now (λ o. (o.2 ≡ w) ⊎ IsReserved (strip raw) o.1) r s w g
        (λ reason d k result. inl refl) (λ root e _ _. inl refl)
        (λ raw' root d _ _ _ _ dup. absurd (false≢true (sym once ∙ dup)))
        (λ raw' root d has_key' _ _ _ _ free.
          let e : raw' ≡ raw = some_inj (sym has_key' ∙ has_key) in
          inr (
            performed-IsReserved r (strip raw) (strip raw') false _ (with_key r (strip raw') now s)
              w (rw (find_key-append, e) (ground (arith, eq_iff (strip raw) (strip raw))))))

  -- The request is refused, or it ends in an exception, and the world outside stays as it is.
  abbrev pub IsTurnedDown : W → Outcome W → Type 0
  IsTurnedDown w o =
      (o.2 ≡ w)
      × (((t : ToolResult) × (o.0 ≡ ok t) × (t.allowed ≡ false)) ⊎ ((e : Error) × (o.0 ≡ raised e)))

  -- A request whose key is in the table and that forbids duplicates is not executed.
  duplicate_refused :
      (g : ToolGateway) (r : ToolRequest) (s : Store) (w : W) (raw : String)
      → nonblank (get "idempotency_key" r.payload) ≡ some raw
      → truthy (get "allow_duplicate" r.payload) ≡ false
      → IsReserved (strip raw) s
      → IsTurnedDown w (execute_request sys host now g r s w)
  unfolding deny
  duplicate_refused g r s w raw has_key once reserved =
      execute_request_cases sys host now (IsTurnedDown w) r s w g
        (λ reason d k result. (refl, inl ((deny r reason d k result now s).0, refl, refl)))
        (λ root e _ _. (refl, inr (e, refl)))
        (λ raw' root d _ _ _ _ dup. absurd (false≢true (sym once ∙ dup)))
        (λ raw' root d has_key' _ _ _ _ free.
          let e : raw' ≡ raw = some_inj (sym has_key' ∙ has_key) in
          let taken : is_some (find_key (strip raw') s.keys) ≡ true = rw e reserved in
          absurd (false≢true (rw free at taken)))

-- At most one execution of a key: of two requests with the same stripped key that forbid
-- duplicates, with any calls of the mail store between them, the first has left the world outside
-- as it was, or the second leaves it as it is and is refused or ends in an exception.
pub at_most_once :
    {W : Type 0} (sys : System W) (host : Host) (now now' : String) (g : ToolGateway)
    (r r' : ToolRequest) (s : Store) (w w' : W) (cs : List Call) (raw raw' : String)
    → nonblank (get "idempotency_key" r.payload) ≡ some raw
    → nonblank (get "idempotency_key" r'.payload) ≡ some raw'
    → strip raw' ≡ strip raw
    → truthy (get "allow_duplicate" r.payload) ≡ false
    → truthy (get "allow_duplicate" r'.payload) ≡ false
    → let first = execute_request sys host now g r s w in
      let second = execute_request sys host now' g r' (run first.1 cs) w' in
      (first.2 ≡ w)
      ⊎ ((second.2 ≡ w')
          × (((t : ToolResult) × (second.0 ≡ ok t) × (t.allowed ≡ false))
              ⊎ ((e : Error) × (second.0 ≡ raised e))))
at_most_once sys host now now' g r r' s w w' cs raw raw' key key' same once once' =
    elim (IsReserved-or_untouched sys host now g r s w raw key once) [
      | inl untouched ↦ inl untouched
      | inr reserved ↦ inr (
          duplicate_refused sys host now' g r' _ w' raw' key' once'
            (rw same (run-IsReserved (strip raw) cs _ reserved)))
    ]
