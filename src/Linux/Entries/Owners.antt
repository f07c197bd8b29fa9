-- ===== src/Linux/Entries/Owners.antt =====
-- How many owners each name has in a list of linux/ipcdrv, and how changes of the list change that.
use gipcy.Base.{
  ℕ, ◌+◌, ◌≡◌, refl, inl, inr, true, false, List, [], ◌∷◌, ◌++◌, none, some, arith, ◌==◌,
  if◌then◌else◌, same_text, same_text_eq, same_text_refl, Bool-cases,
}
use gipcy.Driver.Ioctl.{Ptr, Name}
use gipcy.Driver.Table.Cells.{at, replace, remove, has-remove}
use gipcy.Linux.Entries.{Kind, find_entry}
use gipcy.Linux.Entries.Sound.{Sound}

module _ {A : Type 0} (K : Kind A) where
  -- The owners of the name: 0 if no entry has it.
  abbrev pub owners : Name → List (Ptr × A) → ℕ
  owners n [] = 0
  owners n ((p, a) ∷ cs) = if same_text (K.name a) n then K.owner_count a else owners n cs

  -- The owners that the name has if it is the name of this entry.
  abbrev pub share : Name → A → ℕ
  share n a = if same_text (K.name a) n then K.owner_count a else 0

  owners-absent : (n : Name) (cs : List (Ptr × A)) → find_entry K n cs ≡ none → owners n cs ≡ 0
  owners-absent n [] e = refl
  owners-absent n ((p, a) ∷ cs) e = ground (arith, owners-absent n cs)

  pub other_name :
      (n : Name) (q : Ptr) (cs : List (Ptr × A)) {a : A}
      → find_entry K n cs ≡ none
      → at q cs ≡ some a
      → same_text (K.name a) n ≡ false
  other_name n q [] none_found e = cc
  other_name n q ((p, b) ∷ cs) {a} none_found e = ground (arith, other_name n q cs {a = a})

  -- An entry of the list does not have the name of another one.
  apart :
      (m n : Name) (q : Ptr) (cs : List (Ptr × A)) {a : A}
      → find_entry K m cs ≡ none
      → at q cs ≡ some a
      → same_text m n ≡ true
      → same_text (K.name a) n ≡ false
  apart m n q cs f e same = other_name n q cs (rw (← same_text_eq m n same) f) e

  module _ (Good : A → Type 0) where
    pub owners-replace :
        (n : Name) (q : Ptr) (a b : A) (cs : List (Ptr × A))
        → Sound K Good cs
        → at q cs ≡ some a
        → K.name b ≡ K.name a
        → owners n (replace q b cs) + share n a ≡ owners n cs + share n b
    unfolding Sound
    owners-replace n q a b [] s e same = cc
    owners-replace n q a b ((p, c) ∷ cs) s e same =
        ground (arith, owners-replace n q a b cs s.3, apart (K.name c) n q cs {a = a} s.2)

    pub owners-remove :
        (n : Name) (q : Ptr) (a : A) (cs : List (Ptr × A))
        → Sound K Good cs
        → at q cs ≡ some a
        → owners n (remove q cs) + share n a ≡ owners n cs
    unfolding Sound
    owners-remove n q a [] s e = cc
    owners-remove n q a ((p, c) ∷ cs) s e = elim (Bool-cases (p == q)) [
      | inl here ↦ ground (arith, owners-absent n cs, same_text_eq (K.name c) n)
      | inr other ↦ ground (arith, owners-remove n q a cs s.3, apart (K.name c) n q cs {a = a} s.2)
    ]

  find_entry-remove :
      (n : Name) (q : Ptr) (cs : List (Ptr × A))
      → find_entry K n cs ≡ none
      → find_entry K n (remove q cs) ≡ none
  find_entry-remove n q [] e = refl
  find_entry-remove n q ((p, a) ∷ cs) e = ground (arith, find_entry-remove n q cs)

  pub remove-Sound :
      (Good : A → Type 0) (q : Ptr) (cs : List (Ptr × A))
      → Sound K Good cs
      → Sound K Good (remove q cs)
  unfolding Sound
  remove-Sound Good q [] s = tt
  remove-Sound Good q ((p, a) ∷ cs) s = elim (Bool-cases (p == q)) [
    | inl here ↦ rw here s.3
    | inr other ↦ rw other (
      s.0,
      has-remove p q cs s.1,
      find_entry-remove (K.name a) q cs s.2,
      remove-Sound Good q cs s.3,
    )
  ]

  pub owners-append :
      (n : Name) (q : Ptr) (b : A) (cs : List (Ptr × A))
      → find_entry K (K.name b) cs ≡ none
      → owners n (cs ++ (q, b) ∷ []) ≡ owners n cs + share n b
  owners-append n q b [] e = omega arith
  owners-append n q b ((p, a) ∷ cs) e = ground (
    arith,
    owners-append n q b cs,
    same_text_eq (K.name b) n,
    same_text_eq (K.name a) n,
    same_text_refl n,
  )
