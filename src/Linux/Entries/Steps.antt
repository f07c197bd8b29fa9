-- ===== src/Linux/Entries/Steps.antt =====
-- What one request does to the list of linux/ipcdrv that it uses: it keeps the list sound, and the
-- owners of each name change by what was opened and closed.
use gipcy.Base.{
  ℕ, ◌≡◌, refl, ap, ◌∙◌, ◌≢◌, ◌⊎◌, inl, inr, ℤ, List, none, some, arith, ◌==◌, Bool-cases,
  Option-cases, ==_refl,
}
use gipcy.Driver.Ioctl.{Ptr, null, Name}
use gipcy.Driver.Table.Cells.{at, replace}
use gipcy.Linux.Ioctl.{invalid}
use gipcy.Linux.Kernel.{
  Kernel, Ran, done, waits, oops, ◌>>=◌, Answers, user_handle, container_of,
  container_of-user_handle,
}
use gipcy.Linux.Entries.{Kind, known, no_object, check, use_entry}
use gipcy.Linux.Entries.Sound.{IsEntry, Sound, Sound-at, replace-Sound}
use gipcy.Linux.Entries.Owners.{owners, owners-replace}

module _ {A : Type 0} (K : Kind A) (Good : A → Type 0) where
  -- Memory behind a handle that belongs to no entry can be read and has another identifier.
  abbrev pub Harmless : Kernel → Ptr → List (Ptr × A) → Type 0
  Harmless e h cs =
      at (container_of h) cs ≡ none
      → (word : ℕ) × (e.stray (container_of h) ≡ some word) × (word ≢ K.magic)

  check-at :
      (e : Kernel) (h : Ptr) (a : A) (cs : List (Ptr × A))
      → Sound K Good cs
      → at (container_of h) cs ≡ some a
      → check K e h cs ≡ known (container_of h) a
  unfolding check
  check-at e h a cs s there =
      let is = Sound-at K Good (container_of h) cs s there in
      rw (there, is.known_id, ==_refl K.magic) (ground (arith, is.located))

  -- How `check` ends: with the entry that the handle belongs to, or with none.
  pub check-cases :
      (e : Kernel) (h : Ptr) (cs : List (Ptr × A))
      → Sound K Good cs
      → Harmless e h cs
      → ((at (container_of h) cs ≡ none) × (check K e h cs ≡ no_object))
        ⊎ ((a : A) × (at (container_of h) cs ≡ some a)
            × (check K e h cs ≡ known (container_of h) a))
  unfolding check
  check-cases e h cs s harmless = elim (Option-cases (at (container_of h) cs)) [
    | inl out ↦ let (word, read, other) = harmless out in inl (out, rw (out, read) (ground arith))
    | inr (a, there) ↦ inr (a, there, check-at e h a cs s there)
  ]

  -- A handle that the driver gave out leads to its entry.
  pub check-known :
      (e : Kernel) (p : Ptr) (a : A) (cs : List (Ptr × A))
      → Sound K Good cs
      → at p cs ≡ some a
      → check K e (user_handle p) cs ≡ known p a
  check-known e p a cs s there =
      let is = Sound-at K Good p cs s there in
      let back = container_of-user_handle p is.in_memory in
      check-at e (user_handle p) a cs s (ap (λ x. at x cs) back ∙ there) ∙ ap (λ x. known x a) back

  -- No entry is behind the handle NULL.
  pub at-null : (cs : List (Ptr × A)) → Sound K Good cs → at (container_of null) cs ≡ none
  at-null cs s = elim (Option-cases (at (container_of null) cs)) [
    | inl out ↦ out
    | inr (a, there) ↦
        let is = Sound-at K Good (container_of null) cs s there in
        absurd (omega (arith, is.in_memory))
  ]

  -- A request that locks, unlocks or resets keeps the names and the owners.
  pub use_entry-Answers :
      (e : Kernel) (h : Ptr) (act : A → Ran (ℤ × A)) (cs : List (Ptr × A))
      → Sound K Good cs
      → Harmless e h cs
      → ((p : Ptr) (a : A)
          → IsEntry K Good p a
          → Answers {A = ℤ × A}
              (λ x.
                (K.name x.1 ≡ K.name a)
                × (K.owner_count x.1 ≡ K.owner_count a)
                × IsEntry K Good p x.1)
              (act a))
      → Answers
          (λ (x : ℤ × List (Ptr × A)).
            Sound K Good x.1 × ((n : Name) → owners K n x.1 ≡ owners K n cs))
          (use_entry K e h act cs)
  unfolding use_entry
  use_entry-Answers e h act cs s harmless keeps = elim (Bool-cases (h == null)) [
    | inl zero_handle ↦ rw zero_handle (s, λ n. refl)
    | inr other ↦ rw other (elim (check-cases e h cs s harmless) [
      | inl (out, found) ↦ rw found (s, λ n. refl)
      | inr (a, there, found) ↦ rw found (
          used a there (act a)
            (keeps (container_of h) a (Sound-at K Good (container_of h) cs s there)))
    ])
  ]
    where
      used :
          (a : A) (there : at (container_of h) cs ≡ some a) (run : Ran (ℤ × A))
          → Answers {A = ℤ × A}
              (λ x.
                (K.name x.1 ≡ K.name a)
                × (K.owner_count x.1 ≡ K.owner_count a)
                × IsEntry K Good (container_of h) x.1)
              run
          → Answers
              (λ (x : ℤ × List (Ptr × A)).
                Sound K Good x.1 × ((n : Name) → owners K n x.1 ≡ owners K n cs))
              (run >>= λ x. done (x.0, replace (container_of h) x.1 cs))
      used a there waits k = tt
      used a there oops k = k
      used a there (done (x, b)) (same, owned, is) = (
        replace-Sound K Good (container_of h) a b cs s there same is,
        λ n. ground (arith, owners-replace K Good n (container_of h) a b cs s there same),
      )

  -- A handle that belongs to no entry.
  pub use_entry-absent :
      (e : Kernel) (h : Ptr) (act : A → Ran (ℤ × A)) (cs : List (Ptr × A))
      → Sound K Good cs
      → Harmless e h cs
      → at (container_of h) cs ≡ none
      → use_entry K e h act cs ≡ done (invalid, cs)
  unfolding use_entry
  use_entry-absent e h act cs s harmless absent = elim (Bool-cases (h == null)) [
    | inl zero_handle ↦ rw zero_handle refl
    | inr other ↦ rw other (elim (check-cases e h cs s harmless) [
      | inl (_, found) ↦ rw found refl
      | inr (a, there, _) ↦ cc
    ])
  ]
