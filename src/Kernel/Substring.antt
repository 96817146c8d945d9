-- ===== src/Kernel/Substring.antt =====
-- Python's `part in text`, which appshak/safeguards.py uses to look for words.
use Prim.Native.Char.{code}
use Prim.Native.String.{[], ◌∷◌}
use app_shak_hq.Prelude.{Bool, String, false, nat_eq, refl, string_eq, true, ◌&&◌, ◌==◌, ◌||◌, ◌≡◌}

has_prefix : String → String → Bool
has_prefix [] s = true
has_prefix (c ∷ k) [] = false
has_prefix (c ∷ k) (d ∷ s) = code c == code d && has_prefix k s

unfoldable pub is_in : String → String → Bool
unfolding has_prefix
is_in k [] = has_prefix k []
is_in k (c ∷ s) = has_prefix k (c ∷ s) || is_in k s

is_in_runs : (is_in "pay" "repayment" ≡ true) × (is_in "pay" "paint" ≡ false)
unfolding is_in
is_in_runs = (refl, refl)
