-- ===== src/Python/Value.antt =====
-- The values that a payload holds: what `json.loads` returns. A dictionary is the list of its
-- entries in order of insertion.
use app_shak_hq.Prelude.{
  Bool, List, Option, String, [], arith, eq_iff, false, if◌then◌else◌, nat_eq, none, not, some,
  string_eq, true, ℕ, ◌==◌, ◌||◌, ◌∷◌, ◌≡◌,
}
use app_shak_hq.Python.Text.{is_blank}

-- `negsuc n` is -(n + 1)
pub data ℤ : Type 0 where
  pos : ℕ → ℤ
  negsuc : ℕ → ℤ

-- A float is kept as Python prints it.
mutual
  pub data Value : Type 0 where
    null : Value
    bool : Bool → Value
    int : ℤ → Value
    float : String → Value
    str : String → Value
    arr : Items → Value
    obj : Fields → Value

  pub data Fields : Type 0 where
    end : Fields
    field : String → Value → Fields → Fields

  pub data Items : Type 0 where
    nil : Items
    cons : Value → Items → Items

-- `bool(value)`
unfoldable pub truthy : Value → Bool
truthy null = false
truthy (bool b) = b
truthy (int (pos n)) = not (n == 0)
truthy (int (negsuc n)) = true
truthy (float s) = not (s == "0.0" || s == "-0.0")
truthy (str s) = not (s == "")
truthy (arr nil) = false
truthy (arr (cons _ _)) = true
truthy (obj end) = false
truthy (obj (field _ _ _)) = true

-- `a or b`
unfoldable pub or_else : Value → Value → Value
unfolding truthy
or_else a b = if truthy a then a else b

-- `isinstance(value, str)`, with the text
abbrev pub as_str : Value → Option String
as_str (str s) = some s
as_str _ = none

-- the text of a value that is a `str` and is not blank
abbrev pub nonblank : Value → Option String
nonblank (str s) = if is_blank s then none else some s
nonblank _ = none

-- `isinstance(value, int)`, with the number; `bool` is a subclass of `int`
abbrev pub as_int : Value → Option ℤ
as_int (int n) = some n
as_int (bool b) = some (pos (if b then 1 else 0))
as_int _ = none

-- `isinstance(value, dict)`, with the dictionary
abbrev pub as_obj : Value → Option Fields
as_obj (obj d) = some d
as_obj _ = none

abbrev pub items : Items → List Value
items nil = []
items (cons v vs) = v ∷ items vs

abbrev pub arr_of : List Value → Items
arr_of [] = nil
arr_of (v ∷ vs) = cons v (arr_of vs)

-- `isinstance(value, list)`, with the entries
abbrev pub as_list : Value → Option (List Value)
as_list (arr vs) = some (items vs)
as_list _ = none

-- `d.get(key)`
unfoldable pub get? : String → Fields → Option Value
get? k end = none
get? k (field j v d) = if j == k then some v else get? k d

abbrev or_null : Option Value → Value
or_null none = null
or_null (some v) = v

-- `d.get(key)`, where a missing key reads as `None`
unfoldable pub get : String → Fields → Value
unfolding get?
get k d = or_null (get? k d)

-- `d[key] = value`
unfoldable pub put : String → Value → Fields → Fields
put k v end = field k v end
put k v (field j w d) = if j == k then field k v d else field j w (put k v d)

-- `d.setdefault(key, value)`
unfoldable pub setdefault : String → Value → Fields → Fields
unfolding get? put
setdefault k v d = elim (get? k d) [ none ↦ put k v d | some _ ↦ d ]

-- `d.update(other)`
unfoldable pub update : Fields → Fields → Fields
unfolding put
update d end = d
update d (field k v other) = update (put k v d) other

abbrev pub opt_str : Option String → Value
opt_str none = null
opt_str (some s) = str s

pub get?-put :
    (k j : String) (v : Value) (d : Fields)
    → get? j (put k v d) ≡ (if k == j then some v else get? j d)
unfolding get? put
get?-put k j v end = ground (arith, eq_iff k j)
get?-put k j v (field i w d) = ground (arith, eq_iff k j, eq_iff i k, eq_iff i j, get?-put k j v d)

-- A key that is there keeps its value, and no other key changes.
pub get?-setdefault :
    (k j : String) (v : Value) (d : Fields)
    → get? j (setdefault k v d)
      ≡ (elim (get? j d) [ some w ↦ some w | none ↦ if k == j then some v else none ])
unfolding setdefault
get?-setdefault k j v d = ground (arith, eq_iff k j, get?-put k j v d)
