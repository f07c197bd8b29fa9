-- ===== src/System/Itoa.antt =====
-- `IPC_itoa` of linux/libsrc/sysipc.cpp, which is that of qnx/sysipc.cpp too. An int is an integer; a
-- quotient of C goes towards zero.
pub mod Digits
pub mod Swap
pub mod RoundTrip
use gipcy.Base.{
  ℕ, zero, suc, ◌+◌, ◌-◌, ◌*◌, ◌/◌, ◌%◌, ℤ, pos, neg, negsuc, is_neg, Bool, true, false, ◌||◌, List,
  [], ◌∷◌, ◌++◌, ltb, ◌==◌, if◌then◌else◌, length, get_or, set,
}
use gipcy.System.Chars.{Text, codes}

-- `value /= base`.
unfoldable pub quotient : ℤ → ℕ → ℤ
quotient (pos n) base = pos (n / base)
quotient (negsuc n) base = neg (suc n / base)

-- The table around its zero, at index 35.
abbrev pub digits : Text
digits = codes "zyxwvutsrqponmlkjihgfedcba9876543210123456789abcdefghijklmnopqrstuvwxyz"

-- `digits[35 + (tmp_value - value * base)]` with `value` the quotient of `tmp_value`.
unfoldable pub digit : ℤ → ℕ → ℕ
digit (pos n) base = get_or digits (35 + (n - n / base * base)) 0
digit (negsuc n) base = get_or digits (35 - (suc n - suc n / base * base)) 0

abbrev pub is_zero : ℤ → Bool
is_zero (pos zero) = true
is_zero _ = false

-- The do loop, with the text before `ptr`; after it `*ptr++ = '-'` for a negative `tmp_value`, which
-- has the sign of the value of every round.
unfoldable pub itoa_loop : ℕ → ℤ → ℕ → Text → Text
unfolding quotient digit
itoa_loop zero value base out = out
itoa_loop (suc n) value base out =
    let value' = quotient value base in
    let out' = out ++ digit value base ∷ [] in
    elim (is_zero value') [
      | true ↦ if is_neg value then out' ++ b'-' ∷ [] else out'
      | false ↦ itoa_loop n value' base out'
    ]

-- The loop that swaps what `ptr1` and `ptr` point to, and moves them towards each other.
unfoldable pub swap_loop : ℕ → ℕ → ℕ → Text → Text
swap_loop zero i j s = s
swap_loop (suc n) i j s =
    let rest = swap_loop n (i + 1) (j - 1) (set (set s j (get_or s i 0)) i (get_or s j 0)) in
    if ltb i j then rest else s

-- A value has at most 32 digits; `ptr` ends at the last byte before the zero.
unfoldable pub ipc_itoa : ℤ → ℕ → Text
unfolding itoa_loop swap_loop
ipc_itoa value base =
    if ltb base 2 || ltb 36 base
    then []
    else let s = itoa_loop 32 value base [] in swap_loop (length s) 0 (length s - 1) s
