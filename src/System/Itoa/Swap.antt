-- ===== src/System/Itoa/Swap.antt =====
-- The swapping loop of IPC_itoa reverses the text.
use mathlib.Core.List.{reverse, reverse-cons, reverse-append, append_assoc, append-nil}
use gipcy.Base.{
  ℕ, zero, suc, ◌+◌, ◌-◌, ◌≤◌, ◌≡◌, refl, sym, ap, ◌∙◌, true, false, [], ◌∷◌, ◌++◌, arith, ltb,
  length, length-append, get_or, set,
}
use gipcy.System.Chars.{Text}
use gipcy.System.Chars.Search.{get_or-append}
use gipcy.System.Itoa.{swap_loop}

set-append : (s t : Text) (c d : ℕ) → set (s ++ c ∷ t) (length s) d ≡ s ++ d ∷ t
set-append [] t c d = refl
set-append (x ∷ s) t c d = ap (◌∷◌ x) (set-append s t c d)

-- A text is empty, or one byte, or has a first and a last one.
data Ends : Text → Type 0 where
  none_left : Ends []
  one_left : (c : ℕ) → Ends (c ∷ [])
  both : (c : ℕ) (m : Text) (d : ℕ) → Ends (c ∷ (m ++ d ∷ []))

extend : (c : ℕ) (s : Text) → Ends s → Ends (c ∷ s)
extend c _ none_left = one_left c
extend c _ (one_left d) = both c [] d
extend c _ (both d m e) = both c (d ∷ m) e

text-Ends : (s : Text) → Ends s
text-Ends [] = none_left
text-Ends (c ∷ s) = extend c s (text-Ends s)

module _ (front : Text) (c : ℕ) (m : Text) where
  index : length (front ++ c ∷ m) ≡ length front + (length m + 1)
  index = omega (arith, length-append front (c ∷ m))

  get_or_far :
      (d : ℕ) (back : Text)
      → get_or (front ++ c ∷ (m ++ d ∷ back)) (length front + (length m + 1)) 0 ≡ d
  get_or_far d back =
      rw (← index, sym (append_assoc front (c ∷ m) (d ∷ back)))
        (get_or-append (front ++ c ∷ m) back d 0)

  set_far :
      (d e : ℕ) (back : Text)
      → set (front ++ c ∷ (m ++ d ∷ back)) (length front + (length m + 1)) e
        ≡ front ++ c ∷ (m ++ e ∷ back)
  set_far d e back =
      rw (← index, sym (append_assoc front (c ∷ m) (d ∷ back)))
        (set-append (front ++ c ∷ m) back d e ∙ append_assoc front (c ∷ m) (e ∷ back))

ap3 :
    {A B C D : Type 0} (f : A → B → C → D) {a a' : A} {b b' : B} {c c' : C}
    → a ≡ a'
    → b ≡ b'
    → c ≡ c'
    → f a b c ≡ f a' b' c'
ap3 f p q r = rw (p, q, r) refl

-- One round on a text between two others.
swapped :
    (front : Text) (c : ℕ) (m : Text) (d : ℕ) (back : Text)
    → let s = front ++ c ∷ (m ++ d ∷ back) in
      let j = length front + (length m + 1) in
      set (set s j (get_or s (length front) 0)) (length front) (get_or s j 0)
      ≡ front ++ d ∷ (m ++ c ∷ back)
swapped front c m d back =
    rw
      (
        get_or-append front (m ++ d ∷ back) c 0,
        get_or_far front c m d back,
        set_far front c m d c back,
      )
      (set-append front (m ++ c ∷ back) c d)

round :
    (n : ℕ) (front : Text) (c : ℕ) (m : Text) (d : ℕ) (back : Text)
    → let j = length front + (length m + 1) in
      swap_loop (suc n) (length front) j (front ++ c ∷ (m ++ d ∷ back))
      ≡ swap_loop n (length front + 1) (j - 1) (front ++ d ∷ (m ++ c ∷ back))
unfolding swap_loop
round n front c m d back =
    let apart : ltb (length front) (length front + (length m + 1)) ≡ true = ground arith in
    rw apart (
      ap (swap_loop n (length front + 1) (length front + (length m + 1) - 1))
        (swapped front c m d back))

idle : (n i j : ℕ) (s : Text) → j ≤ i → swap_loop n i j s ≡ s
unfolding swap_loop
idle zero i j s h = refl
idle (suc n) i j s h = let met : ltb i j ≡ false = ground arith in rw met

reverse_both :
    (c : ℕ) (m : Text) (d : ℕ) (back : Text)
    → reverse (c ∷ (m ++ d ∷ [])) ++ back ≡ d ∷ (reverse m ++ c ∷ back)
reverse_both c m d back = simp (reverse-cons, reverse-append, append_assoc)

-- The loop between `i` and `j` reverses what lies between them.
swap_loop-between :
    (n : ℕ) (front mid back : Text)
    → Ends mid
    → length mid ≤ n
    → swap_loop n (length front) (length front + length mid - 1) (front ++ (mid ++ back))
      ≡ front ++ (reverse mid ++ back)
swap_loop-between n front _ back none_left enough = idle n _ _ _ (omega arith)
swap_loop-between n front _ back (one_left c) enough = idle n _ _ _ (omega arith)
swap_loop-between zero front _ back (both c m d) enough = absurd (omega arith)
swap_loop-between (suc n) front _ back (both c m d) enough =
    let m' = c ∷ (m ++ d ∷ []) in
    let to : length front + length m' - 1 ≡ length front + (length m + 1) =
      omega (arith, length-append m (d ∷ [])) in
    let front' = front ++ d ∷ [] in
    let long : length front' ≡ length front + 1 = omega (arith, length-append front (d ∷ [])) in
    let left : length front + 1 ≡ length front' = sym long in
    let right : length front + (length m + 1) - 1 ≡ length front' + length m - 1 =
      omega (arith, long) in
    ap3 (swap_loop (suc n)) refl to (ap (λ t. front ++ c ∷ t) (append_assoc m (d ∷ []) back))
    ∙ (round n front c m d back
        ∙ (ap3 (swap_loop n) left right (sym (append_assoc front (d ∷ []) (m ++ c ∷ back)))
            ∙ (swap_loop-between n front' m (c ∷ back) (text-Ends m)
                  (omega (arith, length-append m (d ∷ [])))
                ∙ (append_assoc front (d ∷ []) (reverse m ++ c ∷ back)
                    ∙ ap (◌++◌ front) (sym (reverse_both c m d back))))))

-- With `ptr1` at the first byte and `ptr` at the last one the loop reverses the text.
pub swap_loop-reverse : (s : Text) → swap_loop (length s) 0 (length s - 1) s ≡ reverse s
swap_loop-reverse s =
    let last : length s - 1 ≡ 0 + length s - 1 = omega arith in
    ap3 (swap_loop (length s)) refl last (sym (append-nil s))
    ∙ (swap_loop-between (length s) [] s [] (text-Ends s) (omega arith) ∙ append-nil (reverse s))
