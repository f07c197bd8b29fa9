-- ===== src/Linux/Entries/Opening.antt =====
-- What ipc_*_create and ipc_shm_open do to their list.
use gipcy.Base.{
  ℕ, ◌+◌, ◌^◌, ◌<◌, ◌≡◌, refl, ◌∙◌, ◌⊎◌, inl, inr, true, false, List, [], ◌∷◌, ◌++◌, none, some,
  arith, if◌then◌else◌, same_text, same_text_eq, same_text_refl, Option-cases,
}
use gipcy.Driver.Ioctl.{Ptr, null, Name}
use gipcy.Driver.Table.Cells.{at, has, replace}
use gipcy.Linux.Kernel.{Kernel, atomic_inc, handle_offset, user_handle}
use gipcy.Linux.Entries.{Kind, find_entry, add_owner, open_entry}
use gipcy.Linux.Entries.Sound.{
  IsEntry, Sound, Sound-at, Lawful, replace-Sound, append-Sound, at-find_entry,
}
use gipcy.Linux.Entries.Owners.{owners, share, owners-replace, owners-append}

module _ {A : Type 0} (K : Kind A) where
  -- The address that `kzalloc` gives out, if it gives one, is none of the list's.
  abbrev pub Allocates : Kernel → List (Ptr × A) → Type 0
  Allocates e cs = elim e.allocated [
    | none ↦ Unit {0}
    | some q ↦ (0 < q) × (q + handle_offset < 2 ^ 64) × (has q cs ≡ false)
  ]

  -- 1 if opening the name gives an owner to the name `n`: not if there is no memory for a new entry.
  abbrev pub opened : Kernel → Name → List (Ptr × A) → Name → ℕ
  opened e name cs n = elim (find_entry K name cs) [
    | some (p, a) ↦ if same_text name n then 1 else 0
    | none ↦ elim e.allocated [ none ↦ 0 | some q ↦ if same_text name n then 1 else 0 ]
  ]

  -- The entry that the handle of an opening leads to.
  abbrev pub Leads : Kernel → Name → Ptr → List (Ptr × A) → Type 0
  Leads e name h cs =
      ((e.allocated ≡ none) × (h ≡ user_handle null))
      ⊎ ((p : Ptr) × (a : A) × (h ≡ user_handle p) × (find_entry K name cs ≡ some (p, a)))

  owners-found :
      (name : Name) (cs : List (Ptr × A)) {p : Ptr} {a : A}
      → find_entry K name cs ≡ some (p, a)
      → (owners K name cs ≡ K.owner_count a) × (same_text (K.name a) name ≡ true)
  owners-found name [] e = cc
  owners-found name ((q, b) ∷ cs) {p} {a} e = ground (arith, owners-found name cs {p = p} {a = a})

  find_entry-replace_self :
      (name : Name) (q : Ptr) (a b : A) (cs : List (Ptr × A))
      → find_entry K name cs ≡ some (q, a)
      → at q cs ≡ some a
      → K.name b ≡ K.name a
      → find_entry K name (replace q b cs) ≡ some (q, b)
  find_entry-replace_self name q a b [] e there same = cc
  find_entry-replace_self name q a b ((p, c) ∷ cs) e there same =
      ground (arith, find_entry-replace_self name q a b cs, owners-found name cs {p = q} {a = a})

  find_entry-append_self :
      (name : Name) (q : Ptr) (b : A) (cs : List (Ptr × A))
      → find_entry K name cs ≡ none
      → same_text (K.name b) name ≡ true
      → find_entry K name (cs ++ (q, b) ∷ []) ≡ some (q, b)
  find_entry-append_self name q b [] e same = ground arith
  find_entry-append_self name q b ((p, c) ∷ cs) e same =
      ground (arith, find_entry-append_self name q b cs)

  atomic_inc-eq : (n : ℕ) → n + 1 < 2 ^ 32 → atomic_inc n ≡ n + 1
  atomic_inc-eq n room = omega arith

  counted :
      (n : Name) (a b : A) (name : Name) (x y : ℕ)
      → K.name a ≡ name
      → K.name b ≡ K.name a
      → K.owner_count b ≡ K.owner_count a + 1
      → x + share K n a ≡ y + share K n b
      → x ≡ y + (if same_text name n then 1 else 0)
  counted n a b name x y is same more e = ground arith

  new_share :
      (n : Name) (b : A) (name : Name)
      → K.name b ≡ name
      → K.owner_count b ≡ 1
      → (cs : List (Ptr × A))
      → owners K n cs + share K n b ≡ owners K n cs + (if same_text name n then 1 else 0)
  new_share n b name same one cs = rw (same, one) refl

  module _ (Good : A → Type 0) (L : Lawful K Good) where
    one_more :
        (p : Ptr) (a : A)
        → (0 < p) × (p + handle_offset < 2 ^ 64) × (K.id a ≡ K.magic) × Good a
        → K.owner_count a + 1 < 2 ^ 32
        → IsEntry K Good p (add_owner K a)
    one_more p a (located, in_memory, known_id, good) room =
        let count = L.owner_count-with_owners a (atomic_inc (K.owner_count a)) in
        let next = atomic_inc-eq (K.owner_count a) room in
        record {
          located = located;
          in_memory = in_memory;
          known_id = L.id-with_owners a _ ∙ known_id;
          owned = omega (arith, count, next);
          in_range = omega (arith, count, next);
          good = L.good-with_owners a _ good;
        }

    -- ipc_*_create as a whole: the owners of every name, and what the handle leads to. The counter of
    -- the name does not wrap, and a new entry is as `Good` asks.
    pub open_entry-Sound :
        (e : Kernel) (name : Name) (init : Ptr → A) (cs : List (Ptr × A))
        → Sound K Good cs
        → Allocates e cs
        → owners K name cs + 1 < 2 ^ 32
        → ((q : Ptr)
            → (K.name (init q) ≡ name)
              × (K.id (init q) ≡ K.magic)
              × (K.owner_count (init q) ≡ 0)
              × Good (init q))
        → let (h, cs') = open_entry K e name init cs in
          Sound K Good cs'
          × ((n : Name) → owners K n cs' ≡ owners K n cs + opened e name cs n)
          × Leads e name h cs'
    unfolding open_entry
    open_entry-Sound e name init cs s fresh room made = elim (Option-cases (find_entry K name cs)) [
      | inr ((p, a), found) ↦
          let (there, text) = at-find_entry K Good name cs s found in
          let (count, _) = owners-found name cs found in
          let is = Sound-at K Good p cs s there in
          let b = add_owner K a in
          let same : K.name b ≡ K.name a = L.name-with_owners a _ in
          let owned = L.owner_count-with_owners a (atomic_inc (K.owner_count a)) in
          let next = atomic_inc-eq (K.owner_count a) (omega (arith, count)) in
          rw (found, open_entry, opened)
            (
              replace-Sound K Good p a b cs s there same (
                  one_more p a (is.located, is.in_memory, is.known_id, is.good)
                    (omega (arith, count))),
              λ n.
                  counted n a b name _ _ (same_text_eq (K.name a) name text) same (owned ∙ next)
                    (owners-replace K Good n p a b cs s there same),
              inr (p, b, refl, find_entry-replace_self name p a b cs found there same),
            )
      | inl absent ↦ elim (Option-cases e.allocated) [
        | inl no_memory ↦
            rw (absent, no_memory, open_entry, opened) (s, λ n. omega arith, inl (refl, refl))
        | inr (q, memory) ↦
            let (located, in_memory, out) = rw (memory, Allocates) at fresh in
            let (is_name, known_id, none_yet, good) = made q in
            let b = add_owner K (init q) in
            let same : K.name b ≡ name = L.name-with_owners (init q) _ ∙ is_name in
            let is =
              one_more q (init q) (located, in_memory, known_id, good) (omega (arith, none_yet)) in
            let unnamed : find_entry K (K.name b) cs ≡ none = rw same absent in
            let owned = L.owner_count-with_owners (init q) (atomic_inc (K.owner_count (init q))) in
            rw (absent, memory, open_entry, opened)
              (
                append-Sound K Good q b cs s out unnamed is,
                λ n.
                    owners-append K n q b cs unnamed
                    ∙ new_share n b name same (omega (arith, owned, none_yet)) cs,
                inr (
                  q,
                  b,
                  refl,
                  find_entry-append_self name q b cs absent (rw same (same_text_refl name)),
                ),
              )
      ]
    ]
