-- ===== src/Text/Split.antt =====
-- `split`, `trim` and comparison of texts.
use kigali_pack.Base.{
  ℕ, ◌≡◌, refl, ap, ◌∙◌, Bool, true, false, ◌&&◌, ◌||◌, not, List, [], ◌∷◌, ◌++◌, arith, leb, ◌==◌,
  if◌then◌else◌,
}
use kigali_pack.Text.{Text, all}

abbrev pub eq_text : Text → Text → Bool
eq_text [] [] = true
eq_text [] (d ∷ t) = false
eq_text (c ∷ s) [] = false
eq_text (c ∷ s) (d ∷ t) = c == d && eq_text s t

pub eq_text_refl : (s : Text) → eq_text s s ≡ true
eq_text_refl [] = refl
eq_text_refl (c ∷ s) = ground (arith, eq_text_refl s)

abbrev put : ℕ → List Text → List Text
put c [] = (c ∷ []) ∷ []
put c (s ∷ parts) = (c ∷ s) ∷ parts

-- `s.split(sep)` for a separator of one character.
unfoldable pub split_on : ℕ → Text → List Text
split_on sep [] = [] ∷ []
split_on sep (c ∷ s) = let rest = split_on sep s in if c == sep then [] ∷ rest else put c rest

abbrev pub free_of : ℕ → Text → Bool
free_of sep s = all (λ c. not (c == sep)) s

pub split_on_free : (sep : ℕ) (s : Text) → free_of sep s ≡ true → split_on sep s ≡ s ∷ []
unfolding split_on
split_on_free sep [] h = refl
split_on_free sep (c ∷ s) h = ground (arith, split_on_free sep s)

pub split_on-append :
    (sep : ℕ) (s t : Text) → free_of sep s ≡ true → split_on sep (s ++ sep ∷ t) ≡ s ∷ split_on sep t
unfolding split_on
split_on-append sep [] t h = ground arith
split_on-append sep (c ∷ s) t h = ground (arith, split_on-append sep s t)

-- The white space and the line terminators of the language.
abbrev pub is_space : ℕ → Bool
is_space c =
    (leb 9 c && leb c 13)
    || (c == 32
        || (c == 160
            || (c == 5760
                || ((leb 8192 c && leb c 8202)
                    || (c == 8232
                        || (c == 8233
                            || (c == 8239 || (c == 8287 || (c == 12288 || c == 65279)))))))))

abbrev pub trim_start : Text → Text
trim_start [] = []
trim_start (c ∷ s) = let rest = trim_start s in if is_space c then rest else c ∷ s

abbrev shorten : ℕ → Text → Text
shorten c [] = if is_space c then [] else c ∷ []
shorten c (d ∷ s) = c ∷ d ∷ s

unfoldable pub trim_end : Text → Text
trim_end [] = []
trim_end (c ∷ s) = shorten c (trim_end s)

abbrev pub trim : Text → Text
trim s = trim_end (trim_start s)

abbrev pub solid : Text → Bool
solid s = all (λ c. not (is_space c)) s

trim_start-solid : (s : Text) → solid s ≡ true → trim_start s ≡ s
trim_start-solid [] h = refl
trim_start-solid (c ∷ s) h = ground arith

shorten_solid : (c : ℕ) (s : Text) → is_space c ≡ false → shorten c s ≡ c ∷ s
shorten_solid c [] h = ap (λ b. if b then [] else c ∷ []) h
shorten_solid c (d ∷ s) h = refl

trim_end-solid : (s : Text) → solid s ≡ true → trim_end s ≡ s
unfolding trim_end
trim_end-solid [] h = refl
trim_end-solid (c ∷ s) h =
    ap (shorten c) (trim_end-solid s (ground arith)) ∙ shorten_solid c s (ground arith)

pub trim-solid : (s : Text) → solid s ≡ true → trim s ≡ s
trim-solid s h = ap trim_end (trim_start-solid s h) ∙ trim_end-solid s h

pub all-append :
    (p : ℕ → Bool) (s t : Text) → all p s ≡ true → all p t ≡ true → all p (s ++ t) ≡ true
all-append p [] t h k = k
all-append p (c ∷ s) t h k = ground (arith, all-append p s t)

pub all_weaken :
    (p q : ℕ → Bool)
    → ((c : ℕ) → p c ≡ true → q c ≡ true)
    → (s : Text) → all p s ≡ true
    → all q s ≡ true
all_weaken p q w [] h = refl
all_weaken p q w (c ∷ s) h = ground (arith, w c, all_weaken p q w s)
