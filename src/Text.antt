-- ===== src/Text.antt =====
-- Texts that the program walks character by character: lists of code units, with the string
-- methods and character classes of the language that the source uses on them.
pub mod Decimal
pub mod Split
use Prim.Native.Char.{code}
use kigali_pack.Base.{
  ℕ, zero, suc, take, drop, ◌≡◌, refl, Bool, true, false, ◌&&◌, List, [], ◌∷◌, ◌++◌, String, arith,
  leb, ◌==◌, if◌then◌else◌,
}

abbrev pub Text : Type 0
Text = List ℕ

abbrev pub codes : String → Text
codes String.[] = []
codes (String.◌∷◌ c s) = code c ∷ codes s

-- `\d`
abbrev pub is_digit : ℕ → Bool
is_digit c = leb b'0' c && leb c b'9'

abbrev pub all : (ℕ → Bool) → Text → Bool
all p [] = true
all p (c ∷ s) = p c && all p s

-- `replace(/\D/g, '')`
unfoldable pub only_digits : Text → Text
only_digits [] = []
only_digits (c ∷ s) = if is_digit c then c ∷ only_digits s else only_digits s

-- `s.startsWith(p)`, the prefix first.
abbrev pub starts_with : Text → Text → Bool
starts_with [] s = true
starts_with (c ∷ p) [] = false
starts_with (c ∷ p) (d ∷ s) = c == d && starts_with p s

pub all-only_digits : (s : Text) → all is_digit (only_digits s) ≡ true
unfolding only_digits
all-only_digits [] = refl
all-only_digits (c ∷ s) = ground (arith, all-only_digits s)

pub only_digits_of_all : (s : Text) → all is_digit s ≡ true → only_digits s ≡ s
unfolding only_digits
only_digits_of_all [] h = refl
only_digits_of_all (c ∷ s) h = ground (arith, only_digits_of_all s)

pub only_digits-append : (s t : Text) → only_digits (s ++ t) ≡ only_digits s ++ only_digits t
unfolding only_digits
only_digits-append [] t = refl
only_digits-append (c ∷ s) t = ground (arith, only_digits-append s t)

pub all-take : (n : ℕ) (s : Text) → all is_digit s ≡ true → all is_digit (take n s) ≡ true
all-take zero s h = refl
all-take (suc n) [] h = refl
all-take (suc n) (c ∷ s) h = ground (arith, all-take n s)

pub all-drop : (n : ℕ) (s : Text) → all is_digit s ≡ true → all is_digit (drop n s) ≡ true
all-drop zero s h = h
all-drop (suc n) [] h = refl
all-drop (suc n) (c ∷ s) h = all-drop n s (ground arith)
