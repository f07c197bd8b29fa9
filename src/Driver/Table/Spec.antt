-- ===== src/Driver/Table/Spec.antt =====
-- What opening and closing mean for a table of named, counted entries, and that the guarded loops do
-- that: the contract of ipc_*_create and ipc_*_close.
use gipcy.Base.{
  ℕ, ◌+◌, ◌-◌, ◌/◌, ◌^◌, length, ◌<◌, ◌≤◌, ◌≡◌, refl, ◌≢◌, inl, inr, ℤ, pos, true, List, [], ◌∷◌,
  ◌++◌, none, some, arith, ◌==◌, if◌then◌else◌, same_text, same_text_refl, Option-cases, Bool-cases,
}
use gipcy.Driver.Ioctl.{Ptr, null, Name, invalid, busy}
use gipcy.Driver.Objects.{Driver}
use gipcy.Driver.Machine.{Env, Memory, world, ok, Cmd, Returns, pure, ◌>>=◌, sem_post}
use gipcy.Driver.Struct.{Struct, wait_lock, post_lock}
use gipcy.Driver.Table.{open_entry, close_entry, close_entries}
use gipcy.Driver.Table.Cells.{addresses, Holds, at, replace, remove, named, at_of_named}
use gipcy.Driver.Table.Steps.{wait_lock-ok, post_lock-ok, close_entries-skipped}
use gipcy.Driver.Table.Walk.{skipped, deleted, in_use, free_all}
use gipcy.Driver.Table.Sound.{IsEntry, Sound-at}
use gipcy.Driver.Table.Update.{InTable, Update, guarded, restored, open-found, open-new}
use gipcy.Driver.Table.Closing.{close-last, close-busy}

module _ {A : Type 0} (S : Struct A) where
  -- One more owner for the entry with the name, or the new entry `b` at `q` behind the others.
  unfoldable pub open_cells : Name → Ptr → A → List (Ptr × A) → List (Ptr × A)
  open_cells name q b cs = elim (named S name cs) [
    | none ↦ cs ++ (q, b) ∷ []
    | some (p, a) ↦ replace p (S.with_owners a (S.owner_count a + 1)) cs
  ]

  unfoldable pub open_handle : Name → Ptr → List (Ptr × A) → Ptr
  open_handle name q cs = elim (named S name cs) [ none ↦ q | some (p, a) ↦ p ]

  -- The counter of the entry with the name does not wrap.
  unfoldable pub HasRoom : Name → List (Ptr × A) → Type 0
  HasRoom name cs = elim (named S name cs) [
    | none ↦ Unit {0}
    | some (p, a) ↦ S.owner_count a + 1 < 2 ^ 32
  ]

  -- One owner less for the entry at `q`, which goes with its last owner.
  unfoldable pub close_cells : Ptr → List (Ptr × A) → List (Ptr × A)
  close_cells q cs = elim (at q cs) [
    | none ↦ cs
    | some a ↦
        if S.owner_count a == 1
        then remove q cs
        else replace q (S.with_owners a (S.owner_count a - 1)) cs
  ]

  unfoldable pub close_result : Ptr → List (Ptr × A) → ℤ
  close_result q cs = elim (at q cs) [
    | none ↦ invalid
    | some a ↦ if S.owner_count a == 1 then pos 0 else busy
  ]

  named-text :
      (name : Name) (cs : List (Ptr × A)) {p : Ptr} {a : A}
      → named S name cs ≡ some (p, a)
      → same_text (S.name a) name ≡ true
  named-text name [] e = cc
  named-text name ((q, b) ∷ cs) {p} {a} e = ground (arith, named-text name cs {p = p} {a = a})

  module _ (e : Env) (m : Memory) (d : Driver) {cs : List (Ptr × A)}
      (t : InTable S e.sem_value_max m d cs) where
    pub open-Update :
        (name : Name) (init : Ptr → Cmd A) (a : A)
        → HasRoom name cs
        → e.fresh ≢ null
        → m e.fresh ≡ none
        → ((d' : Driver) → init e.fresh (world m d') ≡ ok a (world m d'))
        → S.owner_count a ≡ 0
        → S.name a ≡ name
        → IsEntry S e.fresh (S.with_owners a 1)
        → Returns
            (λ handle w.
              (handle ≡ open_handle name e.fresh cs)
              × Update S e.sem_value_max m d w (open_cells name e.fresh (S.with_owners a 1) cs))
            (guarded S e (open_entry S e name init) (world m d))
    unfolding open_cells open_handle HasRoom
    open-Update name init a room ne free made zero_owners same is =
        elim (Option-cases (named S name cs)) [
          | inl n ↦
              let (run, u) = open-new S e m d t name init a n ne free made zero_owners same is in
              rw run (rw (n, open_handle), rw (n, open_cells) u)
          | inr ((p, b), n) ↦
              let (run, u) = open-found S e m d t name init p b n (rw (n, HasRoom) at room) in
              rw run (rw (n, open_handle), rw (n, open_cells) u)
        ]

    pub close-Update :
        (q : Ptr) (k : ℕ) (a : A)
        → 0 < sem_post e k
        → sem_post e k ≤ e.sem_value_max
        → at q cs ≡ some a
        → Returns
            (λ error w.
              (error ≡ close_result q cs) × Update S e.sem_value_max m d w (close_cells q cs))
            ((close_entry S q >>= λ error. post_lock S e >>= λ _. pure error)
              (world m (S.with_lock d k)))
    unfolding close_cells close_result
    close-Update q k a posted range e_at = elim (Bool-cases (S.owner_count a == 1)) [
      | inl one ↦
          let (run, u) = close-last S e m d t q k posted range a e_at (ground arith) in
          rw run (rw (e_at, close_result) (rw one), rw (e_at, close_cells) (rw one u))
      | inr more ↦
          let is = Sound-at S q cs t.sound e_at in
          let (run, u) = close-busy S e m d t q k posted range a e_at (ground (arith, is.owned)) in
          rw run (rw (e_at, close_result) (rw more), rw (e_at, close_cells) (rw more u))
    ]

  named-append_self :
      (name : Name) (q : Ptr) (b : A) (cs : List (Ptr × A))
      → named S name cs ≡ none
      → S.name b ≡ name
      → named S name (cs ++ (q, b) ∷ []) ≡ some (q, b)
  named-append_self name q b [] e same = rw (same, same_text_refl name)
  named-append_self name q b ((p, c) ∷ cs) e same = ground (arith, named-append_self name q b cs)

  named-replace_self :
      (name : Name) (q : Ptr) (a b : A) (cs : List (Ptr × A))
      → named S name cs ≡ some (q, a)
      → at q cs ≡ some a
      → S.name b ≡ S.name a
      → named S name (replace q b cs) ≡ some (q, b)
  named-replace_self name q a b [] e e_at same = cc
  named-replace_self name q a b ((p, c) ∷ cs) e e_at same =
      ground
        (arith, named-replace_self name q a b cs, named-text name ((p, c) ∷ cs) {p = q} {a = a})

  -- The entry that an opening leaves under the name.
  unfoldable pub open_result : Name → A → List (Ptr × A) → A
  open_result name b cs = elim (named S name cs) [
    | none ↦ b
    | some (p, a) ↦ S.with_owners a (S.owner_count a + 1)
  ]

  pub named-open_cells :
      (m : Memory) (name : Name) (q : Ptr) (b : A) (cs : List (Ptr × A))
      → Holds S m cs
      → S.name b ≡ name
      → named S name (open_cells name q b cs) ≡ some (open_handle name q cs, open_result name b cs)
  unfolding open_cells open_handle open_result
  named-open_cells m name q b cs h same = elim (Option-cases (named S name cs)) [
    | inl n ↦
        rw (n, open_cells)
          (rw (n, open_handle) (rw (n, open_result) (named-append_self name q b cs n same)))
    | inr ((p, a), n) ↦
        rw (n, open_cells)
          (rw (n, open_handle)
            (rw (n, open_result)
              (named-replace_self name p a _ cs n (at_of_named S m name cs h n)
                (S.name-with_owners a _))))
  ]

  module _ (e : Env) (m : Memory) (d : Driver) {cs : List (Ptr × A)}
      (t : InTable S e.sem_value_max m d cs) where
    -- ipc_*_close_all as a whole; `answer` is its result for the number of freed entries with owners.
    pub close_all-skipped :
        (answer : ℕ → ℤ)
        → (wait_lock S >>= λ _.
              close_entries S >>= λ used. post_lock S e >>= λ _. pure (answer used))
            (world m d)
          ≡ ok
              (answer (in_use S (deleted S cs)))
              (world (free_all S m (deleted S cs)) (S.with_list d (addresses (skipped S cs))))
    close_all-skipped answer =
        let low = S.with_lock d (S.lock d - 1) in
        let ps = addresses (skipped S cs) in
        let back : S.with_lock (S.with_list low ps) (sem_post e (S.lock (S.with_list low ps)))
            ≡ S.with_list d ps =
          rw
            (
              S.lock-with_list low ps,
              S.lock-with_lock d (S.lock d - 1),
              restored S e m d t.unlocked t.in_range,
              S.with_lock-with_list d (S.lock d - 1) (S.lock d) ps,
              ← S.lock-with_list d ps,
            )
            (S.with_lock-lock (S.with_list d ps)) in
        rw (
          wait_lock-ok S m d t.unlocked,
          close_entries-skipped S m low cs (rw (S.list-with_lock d) t.listed) t.holds,
          post_lock-ok S (free_all S m (deleted S cs)) (S.with_list low ps) e,
          back,
        )

  pub length-skipped : (cs : List (Ptr × A)) → length (skipped S cs) ≡ length cs / 2
  length-skipped [] = refl
  length-skipped (c ∷ []) = refl
  length-skipped (c ∷ b ∷ cs) = omega (arith, length-skipped cs)

-- A post keeps a count that can be taken within its limit.
pub sem_post_range :
    (e : Env) (n : ℕ)
    → 0 < n
    → n ≤ e.sem_value_max
    → (0 < sem_post e n) × (sem_post e n ≤ e.sem_value_max)
unfolding sem_post
sem_post_range e n free range = ground arith
