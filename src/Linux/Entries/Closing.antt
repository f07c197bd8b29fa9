-- ===== src/Linux/Entries/Closing.antt =====
-- What ipc_*_close and ipc_*_close_all do to their list.
use gipcy.Base.{
  ℕ, ◌+◌, ◌-◌, ◌^◌, ◌<◌, ◌≡◌, refl, ap, ◌∙◌, inl, inr, ℤ, pos, Bool, true, false, List, [], ◌∷◌,
  none, some, arith, ◌==◌, ==_iff, if◌then◌else◌, same_text, Bool-cases,
}
use gipcy.Driver.Ioctl.{Ptr, null, Name}
use gipcy.Driver.Table.Cells.{at, has, replace, remove}
use gipcy.Linux.Ioctl.{invalid, busy}
use gipcy.Linux.Kernel.{Kernel, done, Answers, atomic_dec, container_of, user_handle}
use gipcy.Linux.Entries.{Kind, close_loop, close_entry, close_all_loop, close_all}
use gipcy.Linux.Entries.Sound.{Sound, Sound-at, Lawful, replace-Sound}
use gipcy.Linux.Entries.Owners.{owners, owners-replace, owners-remove, remove-Sound}
use gipcy.Linux.Entries.Steps.{Harmless, check-cases, check-known, at-null}

module _ {A : Type 0} (K : Kind A) where
  -- One owner less for the entry, which goes with its last owner.
  abbrev pub close_cells : Ptr → A → List (Ptr × A) → List (Ptr × A)
  close_cells q a cs =
      if K.owner_count a == 1
      then remove q cs
      else replace q (K.with_owners a (K.owner_count a - 1)) cs

  abbrev pub close_error : Ptr → List (Ptr × A) → ℤ
  close_error h cs = elim (at (container_of h) cs) [
    | none ↦ invalid
    | some a ↦ if K.owner_count a == 1 then pos 0 else busy
  ]

  -- 1 if closing the handle takes an owner from the name.
  abbrev pub closed : Ptr → List (Ptr × A) → Name → ℕ
  closed h cs n = elim (at (container_of h) cs) [
    | none ↦ 0
    | some a ↦ if same_text (K.name a) n then 1 else 0
  ]

  atomic_dec-eq : (n : ℕ) → 0 < n → n < 2 ^ 32 → atomic_dec n ≡ n - 1
  atomic_dec-eq n some_left range = omega arith

  last_or_more :
      (p : Ptr) (c : A) (cs : List (Ptr × A)) (n : ℕ)
      → 0 < n
      → ◌≡◌ {A = ℤ × List (Ptr × A)}
          (if n - 1 == 0 then (pos 0, cs) else (busy, (p, K.with_owners c (n - 1)) ∷ cs))
          (if n == 1 then pos 0 else busy, if n == 1 then cs else (p, K.with_owners c (n - 1)) ∷ cs)
  last_or_more p c cs n owned = ground arith

  if_later :
      (p : Ptr) (c : A) (b : Bool) (xs ys : List (Ptr × A))
      → ◌≡◌ {A = ℤ × List (Ptr × A)}
          (if b then pos 0 else busy, (p, c) ∷ (if b then xs else ys))
          (if b then pos 0 else busy, if b then (p, c) ∷ xs else (p, c) ∷ ys)
  if_later p c true xs ys = refl
  if_later p c false xs ys = refl

  close_loop-absent :
      (q : Ptr) (error : ℤ) (cs : List (Ptr × A))
      → has q cs ≡ false
      → close_loop K q error cs ≡ (error, cs)
  unfolding close_loop
  close_loop-absent q error [] out = refl
  close_loop-absent q error ((p, a) ∷ cs) out =
      let other : (p == q) ≡ false = ground arith in
      let rest = close_loop-absent q error cs (ground arith) in rw (other, rest) refl

  module _ (Good : A → Type 0) (L : Lawful K Good) where
    close_loop-present :
        (q : Ptr) (error : ℤ) (a : A) (cs : List (Ptr × A))
        → Sound K Good cs
        → at q cs ≡ some a
        → close_loop K q error cs
          ≡ (if K.owner_count a == 1 then pos 0 else busy, close_cells q a cs)
    unfolding close_loop Sound
    close_loop-present q error a [] s e = cc
    close_loop-present q error a ((p, c) ∷ cs) s e = elim (Bool-cases (p == q)) [
      | inl here ↦
          let ca : c ≡ a = ground arith in
          let out : has q cs ≡ false = ground (arith, s.1) in
          let rest = close_loop-absent q busy cs out in
          let low = atomic_dec-eq (K.owner_count c) s.0.owned s.0.in_range in
          rw (here, rest, low, ← ca) (last_or_more p c cs (K.owner_count c) s.0.owned)
      | inr other ↦
          let below : at q cs ≡ some a = ground arith in
          rw (other, close_loop-present q error a cs s.3 below)
            (if_later p c (K.owner_count a == 1) _ _)
    ]

    -- The handle that the driver gave out for an entry.
    pub close_entry-known :
        (e : Kernel) (q : Ptr) (a : A) (cs : List (Ptr × A))
        → Sound K Good cs
        → at q cs ≡ some a
        → close_entry K e (user_handle q) cs
          ≡ done (if K.owner_count a == 1 then pos 0 else busy, close_cells q a cs)
    unfolding close_entry
    close_entry-known e q a cs s there =
        let is = Sound-at K Good q cs s there in
        let given : (user_handle q == null) ≡ false = ground (arith, is.in_memory) in
        rw (given, check-known K Good e q a cs s there)
          (ap done (close_loop-present q invalid a cs s there))

    pub closed_entry :
        (q : Ptr) (a : A) (cs : List (Ptr × A))
        → Sound K Good cs
        → at q cs ≡ some a
        → Sound K Good (close_cells q a cs)
          × ((n : Name)
              → owners K n (close_cells q a cs) + (if same_text (K.name a) n then 1 else 0)
                ≡ owners K n cs)
    closed_entry q a cs s there = elim (Bool-cases (K.owner_count a == 1)) [
      | inl last ↦
          rw last
            (remove-Sound K Good q cs s, λ n. ground (arith, owners-remove K Good n q a cs s there))
      | inr more ↦
          let is = Sound-at K Good q cs s there in
          let b = K.with_owners a (K.owner_count a - 1) in
          let name : K.name b ≡ K.name a = L.name-with_owners a _ in
          let count : K.owner_count b ≡ K.owner_count a - 1 = L.owner_count-with_owners a _ in
          rw more (
            replace-Sound K Good q a b cs s there name (record {
              located = is.located;
              in_memory = is.in_memory;
              known_id = L.id-with_owners a _ ∙ is.known_id;
              owned = ground (arith, is.owned);
              in_range = omega (arith, is.in_range);
              good = L.good-with_owners a _ is.good;
            }),
            λ n. ground (arith, owners-replace K Good n q a b cs s there name, is.owned),
          )
    ]

    -- ipc_*_close as a whole: the answer, and the owners of every name.
    pub close_entry-Answers :
        (e : Kernel) (h : Ptr) (cs : List (Ptr × A))
        → Sound K Good cs
        → Harmless K Good e h cs
        → Answers
            (λ (x : ℤ × List (Ptr × A)).
              (x.0 ≡ close_error h cs)
              × Sound K Good x.1
              × ((n : Name) → owners K n x.1 + closed h cs n ≡ owners K n cs))
            (close_entry K e h cs)
    unfolding close_entry
    close_entry-Answers e h cs s harmless = elim (Bool-cases (h == null)) [
      | inl zero_handle ↦
          let out : at (container_of h) cs ≡ none =
            rw ((==_iff h null).0 zero_handle) (at-null K Good cs s) in
          rw (zero_handle, close_error, closed, out) (refl, s, λ n. omega arith)
      | inr other ↦ rw other (elim (check-cases K Good e h cs s harmless) [
        | inl (out, found) ↦ rw (found, close_error, closed, out) (refl, s, λ n. omega arith)
        | inr (a, there, found) ↦
            let (sound, counts) = closed_entry (container_of h) a cs s there in
            rw
              (
                found,
                close_loop-present (container_of h) invalid a cs s there,
                close_error,
                closed,
                there,
              )
              (refl, sound, counts)
      ])
    ]

  -- ipc_*_close_all leaves nothing.
  close_all_loop-empty : (used : ℕ) (cs : List (Ptr × A)) → (close_all_loop K used cs).1 ≡ []
  unfolding close_all_loop
  close_all_loop-empty used [] = refl
  close_all_loop-empty used ((p, a) ∷ cs) =
      close_all_loop-empty (if K.owner_count a == 0 then used else used + 1) cs

  pub close_all-empty : (cs : List (Ptr × A)) → (close_all K cs).1 ≡ []
  unfolding close_all
  close_all-empty cs = close_all_loop-empty 0 cs
