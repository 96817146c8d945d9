-- ===== src/Governance/Floats.antt =====
-- The floating-point numbers that appshak_governance/ computes with, as a parameter: their
-- comparisons are Boolean tests of which no law is assumed, since NaN compares with nothing. `clamp`
-- and `as_float` are those of appshak_governance/utils.py.
use app_shak_hq.Prelude.{
  Bool, Bool-cases, Option, String, if◌then◌else◌, inl, inr, none, refl, some, true, ℕ, ◌≡◌, ◌⊎◌,
}
use app_shak_hq.Python.Value.{Value}

pub record FloatOps (F : Type 0) : Type 0 where
  -- a numeral of the source
  pub literal : String → F
  pub lt : F → F → Bool
  pub le : F → F → Bool
  pub add : F → F → F
  pub mul : F → F → F
  pub div : F → F → F
  pub neg : F → F
  pub of_nat : ℕ → F
  -- `float(value)`; `none` where it raises
  pub of_value : Value → Option F

module _ {F : Type 0} (ops : FloatOps F) where
  -- `min(a, b)` and `max(a, b)`: the second only if it is smaller, or greater
  abbrev pub py_min : F → F → F
  py_min a b = if ops.lt b a then b else a

  abbrev pub py_max : F → F → F
  py_max a b = if ops.lt a b then b else a

  unfoldable pub clamp : F → F → F → F
  clamp value minimum maximum = py_max minimum (py_min maximum value)

  abbrev pub as_float : Value → F → F
  as_float v default = elim (ops.of_value v) [ none ↦ default | some x ↦ x ]

  abbrev pub zero_float : F
  zero_float = ops.literal "0.0"

  abbrev pub one_float : F
  one_float = ops.literal "1.0"

  abbrev pub half_float : F
  half_float = ops.literal "0.5"

  -- one of the ends, or strictly between them
  abbrev pub IsBetween : F → F → F → Type 0
  IsBetween lo hi x = (x ≡ lo) ⊎ ((x ≡ hi) ⊎ ((ops.lt lo x ≡ true) × (ops.lt x hi ≡ true)))

  abbrev pub IsUnit : F → Type 0
  IsUnit x = IsBetween zero_float one_float x

  pub clamp-IsBetween : (x lo hi : F) → IsBetween lo hi (clamp x lo hi)
  unfolding clamp
  clamp-IsBetween x lo hi = elim (Bool-cases (ops.lt x hi)) [
    | inl below ↦ elim (Bool-cases (ops.lt lo x)) [
      | inl above ↦ rw (below, above) (inr (inr (above, below)))
      | inr low ↦ rw (below, low) (inl refl)
    ]
    | inr high ↦ elim (Bool-cases (ops.lt lo hi)) [
      | inl order ↦ rw (high, order) (inr (inl refl))
      | inr order ↦ rw (high, order) (inl refl)
    ]
  ]
