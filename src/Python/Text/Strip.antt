-- ===== src/Python/Text/Strip.antt =====
-- Laws of `strip`.
use Prim.Native.String.{[], ◌∷◌}
use app_shak_hq.Prelude.{
  Bool-cases, String, arith, eq_iff, false, inl, inr, nat_eq, refl, string_eq, ◌&&◌, ◌==◌, ◌≡◌, ◌≢◌,
}
use app_shak_hq.Python.Text.{is_blank, is_space_code, lstrip, rstrip, strip}

rstrip_idem : (s : String) → rstrip (rstrip s) ≡ rstrip s
unfolding rstrip
rstrip_idem [] = refl
rstrip_idem (c ∷ s) = elim (Bool-cases (is_space_code c && rstrip s == "")) [
  | inl blank ↦ rw blank refl
  | inr kept ↦ rw kept (rw (rstrip_idem s, kept) refl)
]

lstrip-rstrip-lstrip : (s : String) → lstrip (rstrip (lstrip s)) ≡ rstrip (lstrip s)
unfolding lstrip
lstrip-rstrip-lstrip [] = unfold rstrip in refl
lstrip-rstrip-lstrip (c ∷ s) = elim (Bool-cases (is_space_code c)) [
  | inl space ↦ rw space (lstrip-rstrip-lstrip s)
  | inr letter ↦ rw letter (unfold rstrip in rw letter (rw letter refl))
]

pub strip_idem : (s : String) → strip (strip s) ≡ strip s
unfolding strip
strip_idem s = rw lstrip-rstrip-lstrip (rstrip_idem (lstrip s))

-- A text that is not blank is not empty when stripped.
pub strip_nonblank : (s : String) → is_blank s ≡ false → strip s ≢ ""
unfolding is_blank
strip_nonblank s h = ground (arith, eq_iff (strip s) "")
