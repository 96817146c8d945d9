-- ===== src/Governance/Ledger.antt =====
-- appshak_governance/ledger.py: the audit ledger, a chain of hashes. The file is the list of the
-- rows that `json.loads` makes of its lines, with fields of the types that `append` writes. The
-- hash of a record, `canonical_hash`, is a parameter.
pub mod Chain
use app_shak_hq.Prelude.{
  Bool, List, Option, String, [], false, if◌then◌else◌, leb, length, nat_eq, none, some, string_eq,
  true, ℕ, ◌&&◌, ◌++◌, ◌+◌, ◌==◌, ◌∷◌,
}
use app_shak_hq.Python.Text.{strip, upper}
use app_shak_hq.Python.Value.{Fields, Value, end, field, get?, int, obj, pos, str}

pub record LedgerEntry : Type 0 where
  pub seq : ℕ
  pub entry_type : String
  pub timestamp : String
  pub payload : Fields
  pub prev_hash : String
  pub entry_hash : String

-- before the first entry that does not have a smaller number
unfoldable pub place : LedgerEntry → List LedgerEntry → List LedgerEntry
place e [] = e ∷ []
place e (f ∷ fs) = let rest = place e fs in if leb e.seq f.seq then e ∷ f ∷ fs else f ∷ rest

-- `read_entries`: the rows in the order of their numbers; the sort is stable
unfoldable pub read_entries : List LedgerEntry → List LedgerEntry
unfolding place
read_entries [] = []
read_entries (e ∷ es) = place e (read_entries es)

abbrev pub last_hash : String → List LedgerEntry → String
last_hash previous [] = previous
last_hash previous (e ∷ es) = last_hash e.entry_hash es

-- `str(entry_type).strip().upper()`
abbrev pub canonical_type : String → String
canonical_type t = upper (strip t)

-- the record that is hashed
abbrev pub hashed_record : LedgerEntry → Fields
hashed_record e = field "seq" (int (pos e.seq)) (
    field "entry_type" (str (canonical_type e.entry_type)) (
      field "timestamp" (str e.timestamp)
        (field "payload" (obj e.payload) (field "prev_hash" (str e.prev_hash) end))))

module _ (canonical_hash : Fields → String) where
  -- `append`
  unfoldable pub append_entry :
      String → Fields → String → List LedgerEntry → LedgerEntry × List LedgerEntry
  unfolding read_entries
  append_entry kind payload timestamp file =
      let entries = read_entries file in
      let e : LedgerEntry = record {
        seq = length entries + 1;
        entry_type = canonical_type kind;
        timestamp = timestamp;
        payload = payload;
        prev_hash = last_hash "GENESIS" entries;
        entry_hash = "";
      } in
      let written = record e {
        entry_hash = canonical_hash (
            field "seq" (int (pos e.seq)) (
              field "entry_type" (str e.entry_type) (
                field "timestamp" (str timestamp)
                  (field "payload" (obj payload) (field "prev_hash" (str e.prev_hash) end)))));
      } in
      (written, file ++ written ∷ [])

  -- the loop of `validate_hash_chain`
  unfoldable pub chain : ℕ → String → List LedgerEntry → Bool
  chain expected previous [] = true
  chain expected previous (e ∷ es) =
      let rest = chain (expected + 1) e.entry_hash es in
      e.seq == expected
      && e.prev_hash == previous
      && e.entry_hash == canonical_hash (hashed_record e)
      && rest

  unfoldable pub validate_hash_chain : List LedgerEntry → Bool
  unfolding read_entries chain
  validate_hash_chain file = chain 1 "GENESIS" (read_entries file)

  abbrev last_update : List LedgerEntry → Option LedgerEntry
  last_update [] = none
  last_update (e ∷ es) = elim (last_update es) [
    | some later ↦ some later
    | none ↦ if upper e.entry_type == "REGISTRY_UPDATE" then some e else none
  ]

  -- `str(payload.get("registry_hash", ""))`, where `show` is Python's printer
  abbrev expected_hash : (Value → String) → Fields → String
  expected_hash show payload = elim (get? "registry_hash" payload) [
    | none ↦ ""
    | some (str s) ↦ s
    | some v ↦ show v
  ]

  -- `validate_registry_hash` of a registry that has been normalised
  unfoldable pub validate_registry_hash : (Value → String) → Fields → List LedgerEntry → Bool
  unfolding read_entries
  validate_registry_hash show registry file = elim (last_update (read_entries file)) [
    | none ↦ false
    | some e ↦ expected_hash show e.payload == canonical_hash registry
  ]
