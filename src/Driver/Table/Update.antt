-- ===== src/Driver/Table/Update.antt =====
-- One operation on a table as a whole, its lock taken and given back: which cells it leaves, and that
-- it touches one address at most, which was free or held an entry of this type.
use gipcy.Base.{
  ℕ, ◌+◌, ◌-◌, ◌^◌, ◌≤◌, ◌<◌, ◌≡◌, refl, sym, ap, ◌∙◌, ◌≢◌, ◌⊎◌, inl, inr, List, [], ◌∷◌, ◌++◌,
  Option, none, some, arith,
}
use gipcy.Driver.Ioctl.{Ptr, null, Name}
use gipcy.Driver.Objects.{Object, Driver, increment}
use gipcy.Driver.Machine.{Env, Memory, World, world, ok, Cmd, pure, ◌>>=◌, ◌>>◌, write, sem_post}
use gipcy.Driver.Struct.{Struct, wait_lock, post_lock}
use gipcy.Driver.Table.{open_entry}
use gipcy.Driver.Table.Cells.{
  addresses, at, replace, addresses-replace, addresses-append, Holds, named, Holds-at, at_of_named,
  Holds-replace, Holds-append, has_of_none,
}
use gipcy.Driver.Table.Sound.{Sound, IsEntry, Sound-at, Sound-replace, Sound-append}
use gipcy.Driver.Table.Steps.{wait_lock-ok, open_entry-found, open_entry-new}

module _ {A : Type 0} (S : Struct A) (max : ℕ) where
  -- The driver has the table `cs` in this memory, and its lock can be taken.
  pub record InTable (m : Memory) (d : Driver) (cs : List (Ptr × A)) : Type 0 where
    pub listed : S.list d ≡ addresses cs
    pub holds : Holds S m cs
    pub sound : Sound S cs
    pub unlocked : 0 < S.lock d
    pub in_range : S.lock d ≤ max

  -- The address is free, or holds an entry of this type.
  abbrev pub Owned : Memory → Ptr → Type 0
  Owned m q = (m q ≡ none) ⊎ ((a : A) × (m q ≡ some (S.inject a)))

  -- `w` is the world after one write and new values for the list and the lock; its table is `cs`.
  pub record Update (m : Memory) (d : Driver) (w : World) (cs : List (Ptr × A)) : Type 0 where
    pub place : Ptr
    pub content : Option Object
    pub ps : List Ptr
    pub n : ℕ
    pub after : Driver
    pub owned : Owned m place
    pub same : after ≡ S.with_lock (S.with_list d ps) n
    pub result : w ≡ world (write m place content) after
    pub table : InTable (write m place content) after cs

-- An operation inside the lock of its list.
abbrev pub guarded : {A X : Type 0} → Struct A → Env → Cmd X → Cmd X
guarded S e cmd = do wait_lock S; x ← cmd; post_lock S e; pure x

module _ {A : Type 0} (S : Struct A) (e : Env) (m : Memory) (d : Driver) where
  pub restored : 0 < S.lock d → S.lock d ≤ e.sem_value_max → sem_post e (S.lock d - 1) ≡ S.lock d
  unfolding sem_post
  restored free range = ground arith

  -- What the guarded command computes, from what the command computes under the lock.
  pub guarded-ok :
      {X : Type 0} (cmd : Cmd X) (x : X) (m' : Memory) (d' : Driver)
      → 0 < S.lock d
      → S.lock d ≤ e.sem_value_max
      → cmd (world m (S.with_lock d (S.lock d - 1))) ≡ ok x (world m' d')
      → S.lock d' ≡ S.lock d - 1
      → guarded S e cmd (world m d) ≡ ok x (world m' (S.with_lock d' (S.lock d)))
  unfolding post_lock
  guarded-ok cmd x m' d' free range run same =
      rw (wait_lock-ok S m d free) (rw run (rw (same, restored free range)))

  unchanged : d ≡ S.with_lock (S.with_list d (S.list d)) (S.lock d)
  unchanged = rw (S.with_list-list d, S.with_lock-lock d)

  module _ {cs : List (Ptr × A)} (t : InTable S e.sem_value_max m d cs) where
    under : S.list (S.with_lock d (S.lock d - 1)) ≡ addresses cs
    under = rw (S.list-with_lock d) t.listed

    -- A change of one entry that keeps its name.
    pub InTable-replace :
        (q : Ptr) (a b : A)
        → at q cs ≡ some a
        → S.name b ≡ S.name a
        → IsEntry S q b
        → InTable S e.sem_value_max (write m q (some (S.inject b))) d (replace q b cs)
    InTable-replace q a b e_at same new = record {
      listed = t.listed ∙ sym (addresses-replace q b cs);
      holds = Holds-replace S m q b cs t.holds;
      sound = Sound-replace S q b cs t.sound e_at same new;
      unlocked = t.unlocked;
      in_range = t.in_range;
    }

    Update-replace :
        (q : Ptr) (a b : A)
        → at q cs ≡ some a
        → S.name b ≡ S.name a
        → IsEntry S q b
        → Update S e.sem_value_max m d (world (write m q (some (S.inject b))) d) (replace q b cs)
    Update-replace q a b e_at same new = record {
      place = q;
      content = some (S.inject b);
      ps = S.list d;
      n = S.lock d;
      after = d;
      owned = inr (a, (Holds-at S m q cs t.holds e_at).1);
      same = unchanged;
      result = refl;
      table = InTable-replace q a b e_at same new;
    }

    pub with_owners-IsEntry :
        (q : Ptr) (a : A) (n : ℕ)
        → IsEntry S q a
        → 0 < n
        → n < 2 ^ 32
        → IsEntry S q (S.with_owners a n)
    with_owners-IsEntry q a n is some_left bound = record {
      handle = S.handle-with_owners a n ∙ is.handle;
      magic = S.id_word-with_owners a n ∙ is.magic;
      owned = rw (S.owner_count-with_owners a n) some_left;
      bounded = rw (S.owner_count-with_owners a n) bound;
      fits = rw (S.name-with_owners a n) is.fits;
    }

    -- Opening a name that is there: one more owner.
    pub open-found :
        (name : Name) (init : Ptr → Cmd A) (p : Ptr) (a : A)
        → named S name cs ≡ some (p, a)
        → S.owner_count a + 1 < 2 ^ 32
        → let b = S.with_owners a (S.owner_count a + 1) in
          (guarded S e (open_entry S e name init) (world m d)
            ≡ ok p (world (write m p (some (S.inject b))) d))
          × Update S e.sem_value_max m d (world (write m p (some (S.inject b))) d) (replace p b cs)
    unfolding increment
    open-found name init p a n room =
        let e_at = at_of_named S m name cs t.holds n in
        let is = Sound-at S p cs t.sound e_at in
        let more : increment (S.owner_count a) ≡ S.owner_count a + 1 = omega arith in
        let run =
          open_entry-found S m (S.with_lock d (S.lock d - 1)) e name init cs p a under t.holds n in
        (
          guarded-ok (open_entry S e name init) (S.handle a) _ _ t.unlocked t.in_range run
                (S.lock-with_lock d (S.lock d - 1))
              ∙ rw (S.with_lock_back d (S.lock d - 1), is.handle, more),
          Update-replace p a (S.with_owners a (S.owner_count a + 1)) e_at (S.name-with_owners a _)
              (with_owners-IsEntry p a _ is (omega arith) room),
        )

    -- Opening a new name: an entry behind the others, with one owner.
    pub open-new :
        (name : Name) (init : Ptr → Cmd A) (a : A)
        → named S name cs ≡ none
        → e.fresh ≢ null
        → m e.fresh ≡ none
        → ((d' : Driver) → init e.fresh (world m d') ≡ ok a (world m d'))
        → S.owner_count a ≡ 0
        → S.name a ≡ name
        → IsEntry S e.fresh (S.with_owners a 1)
        → let b = S.with_owners a 1 in
          let d' = S.with_list d (addresses cs ++ e.fresh ∷ []) in
          (guarded S e (open_entry S e name init) (world m d)
            ≡ ok e.fresh (world (write m e.fresh (some (S.inject b))) d'))
          × Update S e.sem_value_max m d
              (world (write m e.fresh (some (S.inject b))) d')
              (cs ++ (e.fresh, b) ∷ [])
    unfolding increment
    open-new name init a n ne free made zero_owners same is =
        let b = S.with_owners a 1 in
        let d' = S.with_list d (addresses cs ++ e.fresh ∷ []) in
        let one : increment (S.owner_count a) ≡ 1 = omega arith in
        let to : S.handle a ≡ e.fresh = sym (S.handle-with_owners a 1) ∙ is.handle in
        let kept : S.with_lock d' (S.lock d) ≡ d' =
          ap (S.with_lock d') (sym (S.lock-with_list d _)) ∙ S.with_lock-lock d' in
        let run =
          open_entry-new S m (S.with_lock d (S.lock d - 1)) e name init cs a under t.holds n ne
            (made _) in
        (
          guarded-ok (open_entry S e name init) (S.handle a) _ _ t.unlocked t.in_range run
                (S.lock-with_list _ _ ∙ S.lock-with_lock d (S.lock d - 1))
              ∙ rw (to, one, S.with_lock-with_list d, kept),
          record {
            place = e.fresh;
            content = some (S.inject b);
            ps = addresses cs ++ e.fresh ∷ [];
            n = S.lock d;
            after = d';
            owned = inl free;
            same = sym kept;
            result = refl;
            table = record {
              listed = S.list-with_list d _ ∙ sym (addresses-append e.fresh b cs);
              holds =
                  Holds-append S m e.fresh b cs ne (has_of_none S m e.fresh cs t.holds free)
                    t.holds;
              sound = Sound-append S e.fresh b cs t.sound (rw (S.name-with_owners a 1, same) n) is;
              unlocked = rw (S.lock-with_list d (addresses cs ++ e.fresh ∷ [])) t.unlocked;
              in_range = rw (S.lock-with_list d (addresses cs ++ e.fresh ∷ [])) t.in_range;
            };
          },
        )
