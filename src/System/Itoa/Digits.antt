-- ===== src/System/Itoa/Digits.antt =====
-- Numbers written in a base: their value, and the table of IPC_itoa read as a table of digits.
use gipcy.Base.{
  ℕ, zero, suc, ◌+◌, ◌-◌, ◌*◌, ◌<◌, ◌≡◌, refl, Bool, true, false, ◌&&◌, not, [], ◌∷◌, ℤ, pos, neg,
  arith, ltb, ◌==◌, ==_iff, if◌then◌else◌, get_or,
}
use gipcy.System.Chars.{Text}
use gipcy.System.Itoa.{digits}

-- The value of a digit: those of 0 to 9 and the small letters after them.
unfoldable pub digit_value : ℕ → ℕ
digit_value c = if ltb c 58 then c - b'0' else c - b'a' + 10

unfoldable pub number_from : ℕ → ℕ → Text → ℕ
number_from base acc [] = acc
number_from base acc (c ∷ s) = number_from base (acc * base + digit_value c) s

-- The integer that a text stands for, with a minus sign in front of a negative one.
unfoldable pub read_number : ℕ → Text → ℤ
read_number base [] = pos 0
read_number base (c ∷ s) =
    if c == b'-' then neg (number_from base 0 s) else pos (number_from base 0 (c ∷ s))

-- A test of every number below a bound.
all_below : ℕ → (ℕ → Bool) → Bool
all_below zero p = true
all_below (suc n) p = p n && all_below n p

not-true : {b : Bool} → not b ≡ true → b ≡ false
not-true {b = true} h = cc
not-true {b = false} h = refl

all_below-holds : (n : ℕ) (p : ℕ → Bool) → all_below n p ≡ true → (r : ℕ) → r < n → p r ≡ true
unfolding all_below
all_below-holds zero p h r less = absurd (omega arith)
all_below-holds (suc n) p h r less = ground (arith, all_below-holds n p _ r)

abbrev pub letter : ℕ → ℕ
letter r = get_or digits (35 + r) 0

module _ (r : ℕ) (fits : r < 36) where
  pub letter-value : digit_value (letter r) ≡ r
  unfolding all_below digit_value
  letter-value =
      (==_iff (digit_value (letter r)) r).0
        (all_below-holds 36 (λ k. digit_value (letter k) == k) refl r fits)

  -- The table is the same in both directions from its zero.
  pub letter-mirror : get_or digits (35 - r) 0 ≡ letter r
  unfolding all_below
  letter-mirror =
      (==_iff (get_or digits (35 - r) 0) (letter r)).0
        (all_below-holds 36 (λ k. get_or digits (35 - k) 0 == letter k) refl r fits)

  pub letter-not_minus : (letter r == b'-') ≡ false
  unfolding all_below
  letter-not_minus = not-true (all_below-holds 36 (λ k. not (letter k == b'-')) refl r fits)
