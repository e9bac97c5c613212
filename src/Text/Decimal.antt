-- ===== src/Text/Decimal.antt =====
-- `String(n)` and `padStart` for natural numbers.
use kigali_pack.Base.{
  ℕ, zero, suc, ◌+◌, ◌-◌, ◌*◌, ◌/◌, ◌%◌, ◌≤◌, ◌<◌, ◌≡◌, refl, true, [], ◌∷◌, ◌++◌, arith, ltb,
  if◌then◌else◌, length, length-append, lt→ltb,
}
use kigali_pack.Text.{Text, all, is_digit}

-- Twenty digits are enough for every integer that a `number` holds exactly.
unfoldable pub decimal_from : ℕ → ℕ → Text
decimal_from zero n = []
decimal_from (suc fuel) n =
    let rest = decimal_from fuel (n / 10) in
    if ltb n 10 then (b'0' + n) ∷ [] else rest ++ (b'0' + n % 10) ∷ []

unfoldable pub decimal : ℕ → Text
decimal n = decimal_from 20 n

unfoldable pub zeros : ℕ → Text
zeros zero = []
zeros (suc k) = b'0' ∷ zeros k

-- `s.padStart(width, '0')`
unfoldable pub pad_start : ℕ → Text → Text
pad_start width s = zeros (width - length s) ++ s

abbrev pow10 : ℕ → ℕ
pow10 zero = 1
pow10 (suc k) = 10 * pow10 k

pub all-append :
    (s t : Text) → all is_digit s ≡ true → all is_digit t ≡ true → all is_digit (s ++ t) ≡ true
all-append [] t h k = k
all-append (c ∷ s) t h k = ground (arith, all-append s t)

pub all-decimal_from : (fuel n : ℕ) → all is_digit (decimal_from fuel n) ≡ true
unfolding decimal_from
all-decimal_from zero n = refl
all-decimal_from (suc fuel) n = ground (
  arith,
  all-append (decimal_from fuel (n / 10)) ((b'0' + n % 10) ∷ []),
  all-decimal_from fuel (n / 10),
)

length-decimal_from : (k fuel n : ℕ) → n < pow10 (suc k) → length (decimal_from fuel n) ≤ suc k
unfolding decimal_from
length-decimal_from k zero n h = omega arith
length-decimal_from zero (suc fuel) n h = rw (lt→ltb n 10 (omega arith)) (omega arith)
length-decimal_from (suc k) (suc fuel) n h = ground (
  arith,
  length-append (decimal_from fuel (n / 10)) ((b'0' + n % 10) ∷ []),
  length-decimal_from k fuel (n / 10),
)

length-zeros : (k : ℕ) → length (zeros k) ≡ k
unfolding zeros
length-zeros zero = refl
length-zeros (suc k) = omega (arith, length-zeros k)

all-zeros : (k : ℕ) → all is_digit (zeros k) ≡ true
unfolding zeros
all-zeros zero = refl
all-zeros (suc k) = all-zeros k

-- A number below 10 ^ 7, padded to seven digits.
pub pad_start_seven :
    (n : ℕ)
    → n < 10000000
    → (length (pad_start 7 (decimal n)) ≡ 7) × (all is_digit (pad_start 7 (decimal n)) ≡ true)
unfolding pad_start decimal
pad_start_seven n h = (
  omega (
    arith,
    length-append (zeros (7 - length (decimal_from 20 n))) (decimal_from 20 n),
    length-zeros (7 - length (decimal_from 20 n)),
    length-decimal_from 6 20 n h,
  ),
  all-append (zeros (7 - length (decimal_from 20 n))) (decimal_from 20 n) (all-zeros _)
      (all-decimal_from 20 n),
)

decimal_from_step :
    (fuel n : ℕ)
    → 10 ≤ n
    → decimal_from (suc fuel) n ≡ decimal_from fuel (n / 10) ++ (b'0' + n % 10) ∷ []
unfolding decimal_from
decimal_from_step fuel n h = ground arith

decimal_from_last : (fuel n : ℕ) → n < 10 → decimal_from (suc fuel) n ≡ (b'0' + n) ∷ []
unfolding decimal_from
decimal_from_last fuel n h = ground arith

pub decimal_two : (n : ℕ) → 10 ≤ n → n < 100 → decimal n ≡ (b'0' + n / 10) ∷ (b'0' + n % 10) ∷ []
unfolding decimal
decimal_two n h k =
    rw (decimal_from_step 19 n h) (rw (decimal_from_last 18 (n / 10) (omega arith)) refl)

pub decimal_four :
    (n : ℕ)
    → 1000 ≤ n
    → n < 10000
    → decimal n
      ≡ (b'0' + n / 1000) ∷ (b'0' + n / 100 % 10) ∷ (b'0' + n / 10 % 10) ∷ (b'0' + n % 10) ∷ []
unfolding decimal
decimal_four n h k = rw (decimal_from_step 19 n (omega arith)) (
    rw (decimal_from_step 18 (n / 10) (omega arith)) (
      rw (decimal_from_step 17 (n / 10 / 10) (omega arith))
        (rw (decimal_from_last 16 (n / 10 / 10 / 10) (omega arith)) (ground arith))))
