-- ===== src/Driver/Table/Walk.antt =====
-- What the loops compute on a table that the memory holds.
use gipcy.Base.{
  ℕ, zero, suc, ◌+◌, ◌<◌, ◌≤◌, ◌≡◌, ◌≢◌, refl, ap, ◌∙◌, inl, inr, ℤ, pos, false, List, [], ◌∷◌,
  ◌++◌, Option, none, some, arith, ◌==◌, same_text, if◌then◌else◌, Bool-cases, length, get_elem?,
  erase_at, length-append,
}
use gipcy.Driver.Ioctl.{Ptr, null, Name, busy}
use gipcy.Driver.Objects.{decrement}
use gipcy.Driver.Machine.{Memory, World, Run, ok, and_then, pure, write, store}
use gipcy.Driver.Struct.{Struct}
use gipcy.Driver.Table.{find_entry, close_loop, close_all_loop}
use gipcy.Driver.Table.Cells.{addresses, has, at, remove, Holds, named, load-ok, Holds-write}

module _ {A : Type 0} (S : Struct A) where
  abbrev found : Option (Ptr × A) → Option Ptr
  found none = none
  found (some (p, a)) = some p

  -- The search finds the first cell with the name.
  pub find_entry-named :
      (name : Name) (cs : List (Ptr × A)) (w : World)
      → Holds S w.mem cs
      → find_entry S name (addresses cs) w ≡ ok (found (named S name cs)) w
  unfolding find_entry
  find_entry-named name [] w h = refl
  find_entry-named name ((p, a) ∷ cs) w h =
      rw (load-ok S p a w h.0 h.1) (elim (Bool-cases (same_text (S.name a) name)) [
        | inl e ↦ rw e
        | inr e ↦ rw e (find_entry-named name cs w h.3)
      ])

  -- An address outside the table is left alone.
  close_loop-absent :
      (q : Ptr) (cs : List (Ptr × A)) (error : ℤ) (w : World)
      → has q cs ≡ false
      → close_loop S q (addresses cs) error w ≡ ok (addresses cs, error) w
  unfolding close_loop
  close_loop-absent q [] error w out = refl
  close_loop-absent q ((p, a) ∷ cs) error w out =
      let miss : (p == q) ≡ false = ground arith in
      rw miss (rw (close_loop-absent q cs error w (ground arith)) refl)

  -- The outcome of closing the address `q`, once its object is known.
  abbrev pub closed : Ptr → List (Ptr × A) → ℤ → World → Option A → Run (List Ptr × ℤ)
  closed q cs error w none = ok (addresses cs, error) w
  closed q cs error w (some a) =
      let left = decrement (S.owner_count a) in
      if left == 0
      then ok (addresses (remove q cs), pos 0) (record w { mem = write w.mem q none })
      else ok (addresses cs, busy)
          (record w { mem = write w.mem q (some (S.inject (S.with_owners a left))) })

  closed-cons :
      (p q : Ptr) (a : A) (cs : List (Ptr × A)) (error : ℤ) (w : World) (o : Option A)
      → (p == q) ≡ false
      → and_then (closed q cs error w o) (λ (ps, last). pure (p ∷ ps, last))
        ≡ closed q ((p, a) ∷ cs) error w o
  closed-cons p q a cs error w none miss = refl
  closed-cons p q a cs error w (some b) miss =
      elim (Bool-cases (decrement (S.owner_count b) == 0)) [ inl e ↦ rw (e, miss) | inr e ↦ rw e ]

  pub close_loop-closed :
      (q : Ptr) (cs : List (Ptr × A)) (error : ℤ) (w : World)
      → Holds S w.mem cs
      → close_loop S q (addresses cs) error w ≡ closed q cs error w (at q cs)
  unfolding close_loop store
  close_loop-closed q [] error w h = refl
  close_loop-closed q ((p, a) ∷ cs) error w h = elim (Bool-cases (p == q)) [
    | inl hit ↦ rw hit (
        let e : q ≡ p = ground arith in
        rw (load-ok S p a w h.0 h.1) (elim (Bool-cases (decrement (S.owner_count a) == 0)) [
          | inl last ↦ rw (last, hit, e)
          | inr more ↦ rw more (rw (close_loop-absent q cs busy _ (rw e h.2)) (rw e))
        ]))
    | inr miss ↦
        rw miss
          (rw (close_loop-closed q cs error w h.3) (closed-cons p q a cs error w (at q cs) miss))
  ]

  -- Every other cell, from the second on, and those between them.
  abbrev pub skipped : List (Ptr × A) → List (Ptr × A)
  skipped [] = []
  skipped (c ∷ []) = []
  skipped (c ∷ d ∷ cs) = d ∷ skipped cs

  abbrev pub deleted : List (Ptr × A) → List (Ptr × A)
  deleted [] = []
  deleted (c ∷ []) = c ∷ []
  deleted (c ∷ d ∷ cs) = c ∷ deleted cs

  -- How many still have owners.
  abbrev pub in_use : List (Ptr × A) → ℕ
  in_use [] = 0
  in_use ((p, a) ∷ cs) = (if S.owner_count a == 0 then 0 else 1) + in_use cs

  abbrev pub free_all : Memory → List (Ptr × A) → Memory
  free_all m [] = m
  free_all m ((p, a) ∷ cs) = free_all (write m p none) cs

  -- Reading and erasing right behind a prefix.
  get_elem?-prefix :
      {X : Type 0} (xs : List X) (y : X) (ys : List X)
      → get_elem? (xs ++ y ∷ ys) (length xs) ≡ some y
  get_elem?-prefix [] y ys = refl
  get_elem?-prefix (x ∷ xs) y ys = get_elem?-prefix xs y ys

  erase_at-prefix :
      {X : Type 0} (xs : List X) (y : X) (ys : List X)
      → erase_at (xs ++ y ∷ ys) (length xs) ≡ xs ++ ys
  erase_at-prefix [] y ys = refl
  erase_at-prefix (x ∷ xs) y ys = ap (◌∷◌ x) (erase_at-prefix xs y ys)

  get_elem?-end : {X : Type 0} (xs : List X) (i : ℕ) → length xs ≤ i → get_elem? xs i ≡ none
  get_elem?-end [] i h = refl
  get_elem?-end (x ∷ xs) zero h = absurd (omega arith)
  get_elem?-end (x ∷ xs) (suc i) h = get_elem?-end xs i (omega arith)

  close_all_loop-stop :
      (k i : ℕ) (ps : List Ptr) (used : ℕ) (w : World)
      → length ps ≤ i
      → close_all_loop S (suc k) i ps used w ≡ ok (ps, used) w
  unfolding close_all_loop
  close_all_loop-stop k i ps used w h = rw (get_elem?-end ps i h, close_all_loop)

  abbrev tally : A → ℕ → ℕ
  tally a used = if S.owner_count a == 0 then used else used + 1

  tally-in_use :
      (a : A) (p : Ptr) (cs : List (Ptr × A)) (used : ℕ)
      → tally a used + in_use cs ≡ used + in_use ((p, a) ∷ cs)
  tally-in_use a p cs used = ground arith

  close_all_loop-step :
      (k : ℕ) (kept : List Ptr) (p : Ptr) (a : A) (ps : List Ptr) (used : ℕ) (w : World)
      → p ≢ null
      → w.mem p ≡ some (S.inject a)
      → close_all_loop S (suc k) (length kept) (kept ++ p ∷ ps) used w
        ≡ close_all_loop S k
            (length kept + 1)
            (kept ++ ps)
            (tally a used)
            (record w { mem = write w.mem p none })
  unfolding close_all_loop store
  close_all_loop-step k kept p a ps used w ne e =
      rw (get_elem?-prefix kept p ps, close_all_loop)
        (rw (load-ok S p a w ne e, erase_at-prefix kept p ps))

  snoc-append : (xs : List Ptr) (y : Ptr) (ys : List Ptr) → (xs ++ y ∷ []) ++ ys ≡ xs ++ y ∷ ys
  snoc-append [] y ys = refl
  snoc-append (x ∷ xs) y ys = ap (◌∷◌ x) (snoc-append xs y ys)

  -- From the index behind `kept`, the loop frees every other entry and leaves the ones between.
  close_all_loop-skipped :
      (k : ℕ) (kept : List Ptr) (cs : List (Ptr × A)) (used : ℕ) (w : World)
      → length cs < k
      → Holds S w.mem cs
      → close_all_loop S k (length kept) (kept ++ addresses cs) used w
        ≡ ok
            (kept ++ addresses (skipped cs), used + in_use (deleted cs))
            (record w { mem = free_all w.mem (deleted cs) })
  close_all_loop-skipped zero kept cs used w fuel h = absurd (omega arith)
  close_all_loop-skipped (suc k) kept [] used w fuel h =
      rw
        (close_all_loop-stop k (length kept) (kept ++ []) used w
          (omega (arith, length-append kept [])))
        (ap (λ n. ok (kept ++ [], n) w) (omega arith))
  close_all_loop-skipped (suc zero) kept (c ∷ cs) used w fuel h = absurd (omega arith)
  close_all_loop-skipped (suc (suc k)) kept ((p, a) ∷ []) used w fuel h =
      rw (close_all_loop-step (suc k) kept p a [] used w h.0 h.1) (
        rw
          (close_all_loop-stop k (length kept + 1) (kept ++ []) (tally a used) _
            (omega (arith, length-append kept [])))
          (ap (λ n. ok (kept ++ [], n) (record w { mem = write w.mem p none }))
            (omega (arith, tally-in_use a p [] used))))
  close_all_loop-skipped (suc (suc k)) kept ((p, a) ∷ (q, b) ∷ cs) used w fuel h =
      let w' : World = record w { mem = write w.mem p none } in
      let rest =
        close_all_loop-skipped (suc k) (kept ++ q ∷ []) cs (tally a used) w' (omega arith)
          (Holds-write S w.mem p none cs (ground arith) h.3.3) in
      let len : length kept + 1 ≡ length (kept ++ q ∷ []) =
        omega (arith, length-append kept (q ∷ [])) in
      rw (close_all_loop-step (suc k) kept p a (q ∷ addresses cs) used w h.0 h.1) (
        rw (len, ← snoc-append kept q (addresses cs), ← snoc-append kept q (addresses (skipped cs)))
          (rest
            ∙ ap
                (λ n.
                  ok ((kept ++ q ∷ []) ++ addresses (skipped cs), n)
                    (record w { mem = free_all (write w.mem p none) (deleted cs) }))
                (tally-in_use a p (deleted cs) used)))

  -- The whole loop, as ipc_*_close_all runs it.
  pub close_all_loop_lem :
      (k : ℕ) (cs : List (Ptr × A)) (w : World)
      → length cs < k
      → Holds S w.mem cs
      → close_all_loop S k 0 (addresses cs) 0 w
        ≡ ok
            (addresses (skipped cs), in_use (deleted cs))
            (record w { mem = free_all w.mem (deleted cs) })
  close_all_loop_lem k cs w fuel h =
      close_all_loop-skipped k [] cs 0 w fuel h
      ∙ ap (λ n. ok (addresses (skipped cs), n) (record w { mem = free_all w.mem (deleted cs) }))
          (omega arith)
