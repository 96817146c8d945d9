-- ===== src/Python/Text.antt =====
-- `str.strip`, `str.upper` and `str.lower` of Python. A text is blank if nothing is left of it by
-- `strip`. Letters outside ASCII, which no name of the program has, are left as they are by the
-- two changes of case.
pub mod Strip
use Prim.Native.Char.{Char, code}
use Prim.Native.String.{[], ◌∷◌, ◌++◌}
use app_shak_hq.Prelude.{
  Bool, Option, String, false, if◌then◌else◌, leb, nat_eq, none, refl, some, string_eq, suc, zero,
  ℕ, ◌&&◌, ◌==◌, ◌||◌, ◌≡◌,
}

-- the characters for which `str.isspace` holds
is_space_code : Char → Bool
is_space_code c =
    let n = code c in
    leb 9 n && leb n 13
    || leb 28 n && leb n 32
    || n == 0x85
    || n == 0xa0
    || n == 0x1680
    || leb 0x2000 n && leb n 0x200a
    || n == 0x2028
    || n == 0x2029
    || n == 0x202f
    || n == 0x205f
    || n == 0x3000

unfoldable pub lstrip : String → String
unfolding is_space_code
lstrip [] = []
lstrip (c ∷ s) = let rest = lstrip s in if is_space_code c then rest else c ∷ s

unfoldable pub rstrip : String → String
unfolding is_space_code
rstrip [] = []
rstrip (c ∷ s) = let rest = rstrip s in if is_space_code c && rest == "" then [] else c ∷ rest

unfoldable pub strip : String → String
unfolding lstrip rstrip
strip s = rstrip (lstrip s)

-- `not s.strip()`
unfoldable pub is_blank : String → Bool
unfolding strip
is_blank s = strip s == ""

-- the character of the second text that stands where the first has `c`
translate : String → String → Char → Char
translate [] _ c = c
translate (a ∷ from) [] c = c
translate (a ∷ from) (b ∷ to) c = if code a == code c then b else translate from to c

abbrev small_letters : String
small_letters = "abcdefghijklmnopqrstuvwxyz"

abbrev capital_letters : String
capital_letters = "ABCDEFGHIJKLMNOPQRSTUVWXYZ"

unfoldable pub upper : String → String
unfolding translate
upper [] = []
upper (c ∷ s) = translate small_letters capital_letters c ∷ upper s

unfoldable pub lower : String → String
unfolding translate
lower [] = []
lower (c ∷ s) = translate capital_letters small_letters c ∷ lower s

strip_runs : strip "  a b\t" ≡ "a b"
unfolding strip
strip_runs = refl

upper_runs : upper "done 2" ≡ "DONE 2"
unfolding upper
upper_runs = refl

-- `s[:n]`
unfoldable pub prefix : ℕ → String → String
prefix zero s = []
prefix (suc n) [] = []
prefix (suc n) (c ∷ s) = c ∷ prefix n s

-- `a or b` of a text that may be `None`: the text, if it is there and not empty
abbrev pub filled : Option String → Option String
filled none = none
filled (some s) = if s == "" then none else some s

-- `a + b` of two texts
abbrev pub concat : String → String → String
concat a b = a ++ b

-- some character of the text is one of the first text's
abbrev pub has_char : String → Char → Bool
has_char [] c = false
has_char (d ∷ s) c = code d == code c || has_char s c

unfoldable pub contains_any : String → String → Bool
contains_any chars [] = false
contains_any chars (c ∷ s) = has_char chars c || contains_any chars s

-- `len(s)`
abbrev pub count_chars : String → ℕ
count_chars [] = 0
count_chars (c ∷ s) = suc (count_chars s)
