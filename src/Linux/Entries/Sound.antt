-- ===== src/Linux/Entries/Sound.antt =====
-- What holds of a list of linux/ipcdrv, and how the code that the four lists share keeps it.
use gipcy.Base.{
  ℕ, ◌+◌, ◌^◌, ◌<◌, ◌≡◌, refl, inl, inr, true, false, List, [], ◌∷◌, ◌++◌, none, some, arith, ◌==◌,
  same_text, same_text_comm, ◌∙◌, Bool-cases,
}
use gipcy.Driver.Ioctl.{Ptr, Name}
use gipcy.Driver.Table.Cells.{at, has, replace, has-append, has-replace}
use gipcy.Linux.Kernel.{handle_offset}
use gipcy.Linux.Entries.{Kind, find_entry}

module _ {A : Type 0} (K : Kind A) (Good : A → Type 0) where
  -- An entry as it is between two requests; `Good` is what the kind asks of its own fields.
  pub record IsEntry (p : Ptr) (a : A) : Type 0 where
    pub located : 0 < p
    pub in_memory : p + handle_offset < 2 ^ 64
    pub known_id : K.id a ≡ K.magic
    pub owned : 0 < K.owner_count a
    pub in_range : K.owner_count a < 2 ^ 32
    pub good : Good a

  -- Every entry is, no address and no name comes twice.
  unfoldable pub Sound : List (Ptr × A) → Type 0
  Sound [] = Unit {0}
  Sound ((p, a) ∷ cs) =
      IsEntry p a × (has p cs ≡ false) × (find_entry K (K.name a) cs ≡ none) × Sound cs

  pub Sound-at : (q : Ptr) (cs : List (Ptr × A)) {a : A} → Sound cs → at q cs ≡ some a → IsEntry q a
  unfolding Sound
  Sound-at q [] s e = cc
  Sound-at q ((p, b) ∷ cs) {a} s e = elim (Bool-cases (p == q)) [
    | inl same ↦ ground arith
    | inr other ↦ Sound-at q cs s.3 (ground arith)
  ]

  -- What a kind's functions owe the code that the lists share.
  pub record Lawful : Type 0 where
    pub name-with_owners : (a : A) (n : ℕ) → K.name (K.with_owners a n) ≡ K.name a
    pub id-with_owners : (a : A) (n : ℕ) → K.id (K.with_owners a n) ≡ K.id a
    pub owner_count-with_owners : (a : A) (n : ℕ) → K.owner_count (K.with_owners a n) ≡ n
    pub good-with_owners : (a : A) (n : ℕ) → Good a → Good (K.with_owners a n)

  -- A changed entry with the same name.
  pub find_entry-replace :
      (name : Name) (q : Ptr) (b : A) (cs : List (Ptr × A)) {a : A}
      → at q cs ≡ some a
      → K.name b ≡ K.name a
      → find_entry K name cs ≡ none
      → find_entry K name (replace q b cs) ≡ none
  find_entry-replace name q b [] e same n = refl
  find_entry-replace name q b ((p, c) ∷ cs) {a} e same n =
      ground (arith, find_entry-replace name q b cs {a = a})

  pub replace-Sound :
      (q : Ptr) (a b : A) (cs : List (Ptr × A))
      → Sound cs
      → at q cs ≡ some a
      → K.name b ≡ K.name a
      → IsEntry q b
      → Sound (replace q b cs)
  unfolding Sound
  replace-Sound q a b [] s e same is = tt
  replace-Sound q a b ((p, c) ∷ cs) s e same is = elim (Bool-cases (p == q)) [
    | inl here ↦
        let (pq, ca) : (p ≡ q) × (c ≡ a) = ground arith in
        rw here (rw pq is, s.1, rw (same, ← ca) s.2, s.3)
    | inr other ↦
        let below : at q cs ≡ some a = ground arith in
        rw other (
          s.0,
          rw (has-replace p q b cs) s.1,
          find_entry-replace (K.name c) q b cs below same s.2,
          replace-Sound q a b cs s.3 below same is,
        )
  ]

  has_of_find_entry :
      (name : Name) (cs : List (Ptr × A)) {p : Ptr} {a : A}
      → find_entry K name cs ≡ some (p, a)
      → has p cs ≡ true
  has_of_find_entry name [] e = cc
  has_of_find_entry name ((q, b) ∷ cs) {p} {a} e =
      ground (arith, has_of_find_entry name cs {p = p} {a = a})

  -- The entry with a name is the one at its address, and has the name.
  pub at-find_entry :
      (name : Name) (cs : List (Ptr × A)) {p : Ptr} {a : A}
      → Sound cs
      → find_entry K name cs ≡ some (p, a)
      → (at p cs ≡ some a) × (same_text (K.name a) name ≡ true)
  unfolding Sound
  at-find_entry name [] s e = cc
  at-find_entry name ((q, b) ∷ cs) {p} {a} s e =
      ground (
        arith,
        at-find_entry name cs {p = p} {a = a} s.3,
        has_of_find_entry name cs {p = p} {a = a},
      )

  find_entry-append :
      (name : Name) (q : Ptr) (b : A) (cs : List (Ptr × A))
      → find_entry K name cs ≡ none
      → same_text (K.name b) name ≡ false
      → find_entry K name (cs ++ (q, b) ∷ []) ≡ none
  find_entry-append name q b [] n other = ground arith
  find_entry-append name q b ((p, c) ∷ cs) n other = ground (arith, find_entry-append name q b cs)

  -- A new entry behind the others.
  pub append-Sound :
      (q : Ptr) (b : A) (cs : List (Ptr × A))
      → Sound cs
      → has q cs ≡ false
      → find_entry K (K.name b) cs ≡ none
      → IsEntry q b
      → Sound (cs ++ (q, b) ∷ [])
  unfolding Sound
  append-Sound q b [] s out n is = (is, refl, refl, tt)
  append-Sound q b ((p, c) ∷ cs) s out n is = (
    s.0,
    has-append p q b cs s.1 (ground arith),
    find_entry-append (K.name c) q b cs s.2 (same_text_comm (K.name b) (K.name c) ∙ ground arith),
    append-Sound q b cs s.3 (ground arith) (ground arith) is,
  )
