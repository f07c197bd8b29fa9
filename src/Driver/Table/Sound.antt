-- ===== src/Driver/Table/Sound.antt =====
-- A well-formed table: what each cell says of itself, and that no name comes twice.
use gipcy.Base.{
  ◌^◌, ◌<◌, ◌≡◌, refl, false, List, [], ◌∷◌, ◌++◌, none, some, arith, ◌==◌, same_text,
  same_text_comm, length, inl, inr, Bool-cases,
}
use gipcy.Driver.Ioctl.{Ptr, Name, name_size}
use gipcy.Driver.Struct.{Struct}
use gipcy.Driver.Table.Cells.{at, replace, remove, named}

module _ {A : Type 0} (S : Struct A) where
  -- The handle is the address, the identifier is that of the type, there are owners (and not so many
  -- that the counter wrapped), and the name fits its array.
  pub record IsEntry (p : Ptr) (a : A) : Type 0 where
    pub handle : S.handle a ≡ p
    pub magic : S.id_word (S.inject a) ≡ some S.magic
    pub owned : 0 < S.owner_count a
    pub bounded : S.owner_count a < 2 ^ 32
    pub fits : length (S.name a) < name_size

  abbrev pub Sound : List (Ptr × A) → Type 0
  Sound [] = Unit {0}
  Sound ((p, a) ∷ cs) = IsEntry p a × (named S (S.name a) cs ≡ none) × Sound cs

  pub Sound-at : (q : Ptr) (cs : List (Ptr × A)) {a : A} → Sound cs → at q cs ≡ some a → IsEntry q a
  Sound-at q [] s e = cc
  Sound-at q ((p, b) ∷ cs) {a} s e = elim (Bool-cases (p == q)) [
    | inl hit ↦
        let to : p ≡ q = ground arith in let same : b ≡ a = ground arith in rw (← to, ← same) s.0
    | inr miss ↦ Sound-at q cs s.2 (ground arith)
  ]

  named-replace :
      (n : Name) (q : Ptr) (b : A) (cs : List (Ptr × A)) {a : A}
      → at q cs ≡ some a
      → S.name b ≡ S.name a
      → named S n cs ≡ none
      → named S n (replace q b cs) ≡ none
  named-replace n q b [] e same none_named = cc
  named-replace n q b ((p, c) ∷ cs) {a} e same none_named =
      ground (arith, named-replace n q b cs {a = a})

  named-remove :
      (n : Name) (q : Ptr) (cs : List (Ptr × A))
      → named S n cs ≡ none
      → named S n (remove q cs) ≡ none
  named-remove n q [] e = refl
  named-remove n q ((p, c) ∷ cs) e = ground (arith, named-remove n q cs)

  named-append :
      (n : Name) (q : Ptr) (b : A) (cs : List (Ptr × A))
      → named S n cs ≡ none
      → same_text (S.name b) n ≡ false
      → named S n (cs ++ (q, b) ∷ []) ≡ none
  named-append n q b [] e ne = rw ne
  named-append n q b ((p, c) ∷ cs) e ne = ground (arith, named-append n q b cs)

  -- An entry may change in anything but its name.
  pub Sound-replace :
      (q : Ptr) (b : A) (cs : List (Ptr × A)) {a : A}
      → Sound cs
      → at q cs ≡ some a
      → S.name b ≡ S.name a
      → IsEntry q b
      → Sound (replace q b cs)
  Sound-replace q b [] s e same new = tt
  Sound-replace q b ((p, c) ∷ cs) {a} s e same new = elim (Bool-cases (p == q)) [
    | inl hit ↦
        let to : p ≡ q = ground arith in
        let known : S.name c ≡ S.name b = ground arith in rw hit (rw to new, rw (← known) s.1, s.2)
    | inr miss ↦ rw miss (
      s.0,
      named-replace (S.name c) q b cs {a = a} (ground arith) same s.1,
      Sound-replace q b cs {a = a} s.2 (ground arith) same new,
    )
  ]

  pub Sound-remove : (q : Ptr) (cs : List (Ptr × A)) → Sound cs → Sound (remove q cs)
  Sound-remove q [] s = tt
  Sound-remove q ((p, c) ∷ cs) s = elim (Bool-cases (p == q)) [
    | inl hit ↦ rw hit s.2
    | inr miss ↦ rw miss (s.0, named-remove (S.name c) q cs s.1, Sound-remove q cs s.2)
  ]

  pub Sound-append :
      (q : Ptr) (b : A) (cs : List (Ptr × A))
      → Sound cs
      → named S (S.name b) cs ≡ none
      → IsEntry q b
      → Sound (cs ++ (q, b) ∷ [])
  Sound-append q b [] s fresh new = (new, refl, tt)
  Sound-append q b ((p, c) ∷ cs) s fresh new =
      let other : same_text (S.name b) (S.name c) ≡ false =
        ground (arith, same_text_comm (S.name b) (S.name c)) in
      (s.0, named-append (S.name c) q b cs s.1 other, Sound-append q b cs s.2 (ground arith) new)
