-- ===== src/Substrate/MailStore/Tables.antt =====
-- The tables of appshak_substrate/schema.sql, each a list of rows in the order of insertion, and
-- the SQL statements that the mail store runs on them. Times are counted in microseconds: all
-- timestamps are UTC in ISO format, whose order as texts is the order of the times.
use app_shak_hq.Prelude.{
  Bool, List, Option, String, [], if◌then◌else◌, is_none, is_some, nat_eq, none, some, string_eq, ℕ,
  ◌++◌, ◌==◌, ◌||◌, ◌∷◌,
}
use app_shak_hq.Python.Value.{Fields}
use app_shak_hq.Substrate.Types.{EventRow}

pub record Lease : Type 0 where
  pub event_id : ℕ
  pub claimed_by : String
  pub claim_ts : ℕ
  pub lease_expiry : ℕ

pub record AuditRow : Type 0 where
  pub id : ℕ
  pub ts : String
  pub agent_id : String
  pub action_type : String
  pub working_dir : String
  pub idempotency_key : Option String
  pub allowed : Bool
  pub reason : Option String
  pub payload : Fields
  pub result : Option Fields
  pub correlation_id : Option String

pub record KeyRow : Type 0 where
  pub idempotency_key : String
  pub created_ts : String
  pub agent_id : String
  pub action_type : String
  pub event_id : Option ℕ
  pub result : Option Fields

pub record Heartbeat : Type 0 where
  pub agent_id : String
  pub consumer_id : String
  pub pid : ℕ
  pub ts : String

-- `next_event` and `next_audit` are what AUTOINCREMENT gives out next
pub record Store : Type 0 where
  pub events : List EventRow
  pub next_event : ℕ
  pub leases : List Lease
  pub audit : List AuditRow
  pub next_audit : ℕ
  pub keys : List KeyRow
  pub heartbeats : List Heartbeat

abbrev pub empty : Store
empty = record {
  events = [];
  next_event = 1;
  leases = [];
  audit = [];
  next_audit = 1;
  keys = [];
  heartbeats = [];
}

-- SELECT * FROM events WHERE id = ?
unfoldable pub find_event : ℕ → List EventRow → Option EventRow
find_event id [] = none
find_event id (e ∷ es) = if e.id == id then some e else find_event id es

-- UPDATE events SET … WHERE id = ?
unfoldable pub update_event : ℕ → (EventRow → EventRow) → List EventRow → List EventRow
update_event id f [] = []
update_event id f (e ∷ es) = (if e.id == id then f e else e) ∷ update_event id f es

-- SELECT … FROM leases WHERE event_id = ?
unfoldable pub find_lease : ℕ → List Lease → Option Lease
find_lease id [] = none
find_lease id (l ∷ ls) = if l.event_id == id then some l else find_lease id ls

-- DELETE FROM leases WHERE event_id = ?
unfoldable pub delete_lease : ℕ → List Lease → List Lease
delete_lease id [] = []
delete_lease id (l ∷ ls) =
    let rest = delete_lease id ls in if l.event_id == id then rest else l ∷ rest

-- INSERT INTO leases; `none` is an IntegrityError: the event is leased, or it does not exist
unfoldable pub insert_lease : Lease → List EventRow → List Lease → Option (List Lease)
insert_lease l es ls =
    if is_some (find_lease l.event_id ls) || is_none (find_event l.event_id es)
    then none
    else some (ls ++ l ∷ [])
