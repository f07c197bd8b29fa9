-- ===== src/System/Itoa/RoundTrip.antt =====
-- What the do loop of IPC_itoa puts out, and the reading of the text that IPC_itoa returns.
use mathlib.Core.List.{reverse, reverse-cons, reverse-append, append_assoc, append-nil}
use native.Mathlib.Nat.{div-add-mod', mod-eq-sub-div-mul, mul-le-mul_left, div-mul-le_self, mod-lt}
use gipcy.Base.{
  ℕ, zero, suc, ◌+◌, ◌*◌, ◌/◌, ◌%◌, ◌^◌, ◌<◌, ◌≤◌, ◌≡◌, refl, sym, ap, ◌∙◌, true, false, ◌||◌, [],
  ◌∷◌, ◌++◌, ℤ, pos, negsuc, neg, arith, ltb, ◌==◌,
}
use gipcy.System.Chars.{Text}
use gipcy.System.Itoa.{quotient, digit, is_zero, itoa_loop, ipc_itoa}
use gipcy.System.Itoa.Digits.{
  digit_value, number_from, read_number, letter, letter-value, letter-mirror, letter-not_minus,
}
use gipcy.System.Itoa.Swap.{swap_loop-reverse}

-- The digits of a number, the least one first; none for zero.
higher : ℕ → ℕ → ℕ → Text
higher zero n base = []
higher (suc q) zero base = []
higher (suc q) (suc n) base = letter (suc q % base) ∷ higher (suc q / base) n base

number_from-append :
    (base acc : ℕ) (s t : Text)
    → number_from base acc (s ++ t) ≡ number_from base (number_from base acc s) t
unfolding number_from
number_from-append base acc [] t = refl
number_from-append base acc (c ∷ s) t = number_from-append base (acc * base + digit_value c) s t

number_from-last :
    (base c : ℕ) (s : Text)
    → number_from base 0 (reverse (c ∷ s)) ≡ number_from base 0 (reverse s) * base + digit_value c
unfolding number_from
number_from-last base c s =
    rw (reverse-cons c s, number_from-append base 0 (reverse s) (c ∷ [])) refl

-- No byte is a minus sign.
NoMinus : Text → Type 0
NoMinus [] = Unit {0}
NoMinus (c ∷ s) = ((c == b'-') ≡ false) × NoMinus s

NoMinus-append : (s t : Text) → NoMinus s → NoMinus t → NoMinus (s ++ t)
unfolding NoMinus
NoMinus-append [] t p q = q
NoMinus-append (c ∷ s) t (p, ps) q = (p, NoMinus-append s t ps q)

NoMinus-reverse : (s : Text) → NoMinus s → NoMinus (reverse s)
unfolding NoMinus
NoMinus-reverse [] p = tt
NoMinus-reverse (c ∷ s) (p, ps) =
    rw (reverse-cons c s) (NoMinus-append (reverse s) (c ∷ []) (NoMinus-reverse s ps) (p, tt))

read_number-pos :
    (base : ℕ) (s : Text) → NoMinus s → read_number base s ≡ pos (number_from base 0 s)
unfolding NoMinus read_number number_from
read_number-pos base [] p = refl
read_number-pos base (c ∷ s) (p, _) = rw p refl

read_number-neg : (base : ℕ) (s : Text) → read_number base (b'-' ∷ s) ≡ neg (number_from base 0 s)
unfolding read_number
read_number-neg base s = refl

module _ (base : ℕ) (least : 2 ≤ base) (most : base ≤ 36) where
  positive : 0 < base
  positive = omega arith

  rest_fits : (m : ℕ) → m % base < 36
  rest_fits m = omega (arith, mod-lt m positive)

  quotient_fits : (n m : ℕ) → m < 2 ^ suc n → m / base < 2 ^ n
  quotient_fits n m h =
      let twice : 2 ^ suc n ≡ 2 * 2 ^ n = omega arith in
      omega (arith, mul-le-mul_left (m / base) least, div-mul-le_self m base)

  digit_pos : (m : ℕ) → digit (pos m) base ≡ letter (m % base)
  unfolding digit
  digit_pos m = rw (← mod-eq-sub-div-mul m base) refl

  digit_negsuc : (m : ℕ) → digit (negsuc m) base ≡ letter (suc m % base)
  unfolding digit
  digit_negsuc m =
      rw (← mod-eq-sub-div-mul (suc m) base) (letter-mirror (suc m % base) (rest_fits (suc m)))

  higher-reads : (q n : ℕ) → q < 2 ^ n → number_from base 0 (reverse (higher q n base)) ≡ q
  unfolding higher number_from
  higher-reads zero n h = refl
  higher-reads (suc q) zero h = absurd (omega arith)
  higher-reads (suc q) (suc n) h =
      rw
        (
          number_from-last base (letter (suc q % base)) (higher (suc q / base) n base),
          higher-reads (suc q / base) n (quotient_fits n (suc q) h),
          letter-value (suc q % base) (rest_fits (suc q)),
        )
        (div-add-mod' (suc q) base)

  -- The rounds after the one that leaves the quotient `q`.
  goes_on :
      (q n : ℕ) (out : Text)
      → q < 2 ^ n
      → elim (is_zero (pos q)) [ true ↦ out | false ↦ itoa_loop n (pos q) base out ]
        ≡ out ++ higher q n base
  unfolding higher itoa_loop quotient
  goes_on zero n out h = sym (append-nil out)
  goes_on (suc q) zero out h = absurd (omega arith)
  goes_on (suc q) (suc n) out h =
      let c = digit (pos (suc q)) base in
      let more = higher (suc q / base) n base in
      goes_on (suc q / base) n (out ++ c ∷ []) (quotient_fits n (suc q) h)
      ∙ (append_assoc out (c ∷ []) more ∙ ap (λ x. out ++ x ∷ more) (digit_pos (suc q)))

  goes_on_neg :
      (q n : ℕ) (out : Text)
      → q < 2 ^ n
      → elim (is_zero (neg q)) [ true ↦ out ++ b'-' ∷ [] | false ↦ itoa_loop n (neg q) base out ]
        ≡ out ++ (higher q n base ++ b'-' ∷ [])
  unfolding higher itoa_loop quotient
  goes_on_neg zero n out h = refl
  goes_on_neg (suc q) zero out h = absurd (omega arith)
  goes_on_neg (suc q) (suc n) out h =
      let c = digit (negsuc q) base in
      let more = higher (suc q / base) n base ++ b'-' ∷ [] in
      goes_on_neg (suc q / base) n (out ++ c ∷ []) (quotient_fits n (suc q) h)
      ∙ (append_assoc out (c ∷ []) more ∙ ap (λ x. out ++ x ∷ more) (digit_negsuc q))

  -- The digits of a number, the least one first.
  low : ℕ → Text
  low m = letter (m % base) ∷ higher (m / base) 31 base

  low-reads : (m : ℕ) → m < 2 ^ 32 → number_from base 0 (reverse (low m)) ≡ m
  unfolding low
  low-reads m h =
      rw
        (
          number_from-last base (letter (m % base)) (higher (m / base) 31 base),
          higher-reads (m / base) 31 (quotient_fits 31 m h),
          letter-value (m % base) (rest_fits m),
        )
        (div-add-mod' m base)

  itoa_loop-pos : (m : ℕ) → m < 2 ^ 32 → itoa_loop 32 (pos m) base [] ≡ low m
  unfolding low itoa_loop quotient
  itoa_loop-pos m h =
      goes_on (m / base) 31 (digit (pos m) base ∷ []) (quotient_fits 31 m h)
      ∙ ap (λ x. x ∷ higher (m / base) 31 base) (digit_pos m)

  itoa_loop-negsuc :
      (m : ℕ) → suc m < 2 ^ 32 → itoa_loop 32 (negsuc m) base [] ≡ low (suc m) ++ b'-' ∷ []
  unfolding low itoa_loop quotient
  itoa_loop-negsuc m h =
      goes_on_neg (suc m / base) 31 (digit (negsuc m) base ∷ []) (quotient_fits 31 (suc m) h)
      ∙ ap (λ x. x ∷ (higher (suc m / base) 31 base ++ b'-' ∷ [])) (digit_negsuc m)

  allowed : (ltb base 2 || ltb 36 base) ≡ false
  allowed = ground arith

  ipc_itoa-reverse : (v : ℤ) → ipc_itoa v base ≡ reverse (itoa_loop 32 v base [])
  unfolding ipc_itoa
  ipc_itoa-reverse v = rw allowed (swap_loop-reverse (itoa_loop 32 v base []))

  higher-NoMinus : (q n : ℕ) → NoMinus (higher q n base)
  unfolding NoMinus higher
  higher-NoMinus zero n = tt
  higher-NoMinus (suc q) zero = tt
  higher-NoMinus (suc q) (suc n) =
      (letter-not_minus (suc q % base) (rest_fits (suc q)), higher-NoMinus (suc q / base) n)

  low-NoMinus : (m : ℕ) → NoMinus (low m)
  unfolding NoMinus low
  low-NoMinus m = (letter-not_minus (m % base) (rest_fits m), higher-NoMinus (m / base) 31)

-- The value of an int.
abbrev pub IsInt : ℤ → Type 0
IsInt (pos n) = n < 2 ^ 31
IsInt (negsuc n) = n < 2 ^ 31

-- For an int and a base of 2 to 36, the text that IPC_itoa writes, read as a number in that base with a
-- minus sign in front of a negative one, is the int.
pub read_number-ipc_itoa :
    (base : ℕ) (v : ℤ) → 2 ≤ base → base ≤ 36 → IsInt v → read_number base (ipc_itoa v base) ≡ v
read_number-ipc_itoa base (pos m) least most h =
    rw
      (
        ipc_itoa-reverse base least most (pos m),
        itoa_loop-pos base least most m (omega arith),
        read_number-pos base (reverse (low base least most m))
            (NoMinus-reverse _ (low-NoMinus base least most m)),
      )
      (ap pos (low-reads base least most m (omega arith)))
read_number-ipc_itoa base (negsuc m) least most h =
    rw
      (
        ipc_itoa-reverse base least most (negsuc m),
        itoa_loop-negsuc base least most m (omega arith),
        reverse-append (low base least most (suc m)) (b'-' ∷ []),
      )
      (read_number-neg base (reverse (low base least most (suc m)))
        ∙ ap neg (low-reads base least most (suc m) (omega arith)))
