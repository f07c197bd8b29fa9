-- ===== src/Driver/Table/Steps.antt =====
-- What one step of an operation computes in a world whose table is known: the lock, the search with
-- the creation that may follow it, and the two closing loops.
use mathlib.Core.Path.{fun_ext}
use gipcy.Base.{
  ◌+◌, ◌-◌, ◌<◌, ◌≡◌, refl, ap, ◌∙◌, ◌≢◌, ◌^◌, length, pos, false, List, [], ◌∷◌, ◌++◌, Option,
  none, some, arith, ◌==◌,
}
use gipcy.Driver.Ioctl.{Ptr, null, Name, invalid, busy}
use gipcy.Driver.Objects.{Object, Driver, increment, decrement}
use gipcy.Driver.Machine.{Env, Memory, world, ok, Cmd, pure, ◌>>=◌, write, store, sem_post}
use gipcy.Driver.Struct.{Struct, load, add_owner, wait_lock, post_lock}
use gipcy.Driver.Table.{open_entry, close_entry, close_entries}
use gipcy.Driver.Table.Cells.{
  addresses, length-addresses, at, remove, Holds, named, load-ok, Holds-at, at_of_named,
}
use gipcy.Driver.Table.Walk.{
  find_entry-named, close_loop-closed, skipped, deleted, in_use, free_all, close_all_loop_lem,
}

pub write-write :
    (m : Memory) (p : Ptr) (b c : Option Object) → write (write m p b) p c ≡ write m p c
unfolding write
write-write m p b c = fun_ext λ q. ground arith

pub write_self : (m : Memory) (p : Ptr) (c : Option Object) → write m p c p ≡ c
unfolding write
write_self m p c = ground arith

module _ {A : Type 0} (S : Struct A) where
  module _ (m : Memory) (d : Driver) where
    pub wait_lock-ok :
        0 < S.lock d → wait_lock S (world m d) ≡ ok tt (world m (S.with_lock d (S.lock d - 1)))
    unfolding wait_lock
    wait_lock-ok free = let taken : (S.lock d == 0) ≡ false = ground arith in rw taken

    pub post_lock-ok :
        (e : Env)
        → post_lock S e (world m d) ≡ ok tt (world m (S.with_lock d (sem_post e (S.lock d))))
    unfolding post_lock
    post_lock-ok e = refl

    -- Both an entry that was there and a new one end with one more owner, and their handle.
    finish :
        (p : Ptr) (a : A) (m' : Memory) (d' : Driver)
        → p ≢ null
        → m' p ≡ some (S.inject a)
        → (add_owner S p >>= λ _. load S p >>= λ b. pure (S.handle b)) (world m' d')
          ≡ ok (S.handle a) (
              world
                (write m' p (some (S.inject (S.with_owners a (increment (S.owner_count a))))))
                d')
    unfolding add_owner store
    finish p a m' d' ne e =
        let b = S.with_owners a (increment (S.owner_count a)) in
        rw (load-ok S p a (world m' d') ne e) (
          rw (
            load-ok S p b (world (write m' p (some (S.inject b))) d') ne (write_self m' p _),
            S.handle-with_owners a (increment (S.owner_count a)),
          ))

    pub open_entry-found :
        (e : Env) (name : Name) (init : Ptr → Cmd A) (cs : List (Ptr × A)) (p : Ptr) (a : A)
        → S.list d ≡ addresses cs
        → Holds S m cs
        → named S name cs ≡ some (p, a)
        → open_entry S e name init (world m d)
          ≡ ok (S.handle a) (
              world (write m p (some (S.inject (S.with_owners a (increment (S.owner_count a)))))) d)
    unfolding open_entry
    open_entry-found e name init cs p a l h n =
        let (ne, at_p) = Holds-at S m p cs h (at_of_named S m name cs h n) in
        rw (l, find_entry-named S name cs (world m d) h, n) (finish p a m d ne at_p)

    pub open_entry-new :
        (e : Env) (name : Name) (init : Ptr → Cmd A) (cs : List (Ptr × A)) (b : A)
        → S.list d ≡ addresses cs
        → Holds S m cs
        → named S name cs ≡ none
        → e.fresh ≢ null
        → init e.fresh (world m d) ≡ ok b (world m d)
        → open_entry S e name init (world m d)
          ≡ ok (S.handle b) (
              world
                (write m e.fresh (some (S.inject (S.with_owners b (increment (S.owner_count b))))))
                (S.with_list d (addresses cs ++ e.fresh ∷ [])))
    unfolding open_entry
    open_entry-new e name init cs b l h n ne made =
        let got : (e.fresh == null) ≡ false = ground arith in
        let m' = write m e.fresh (some (S.inject b)) in
        rw (l, find_entry-named S name cs (world m d) h, n, got, made)
          (finish e.fresh b m' (S.with_list d (S.list d ++ e.fresh ∷ [])) ne
              (write_self m e.fresh (some (S.inject b)))
            ∙ ap
                (λ (n : Memory).
                  ok (S.handle b) (world n (S.with_list d (S.list d ++ e.fresh ∷ []))))
                (write-write m e.fresh _ _)
            ∙ ap
                (λ (ps : List Ptr). ok (S.handle b) (
                  world
                    (write m e.fresh
                      (some (S.inject (S.with_owners b (increment (S.owner_count b))))))
                    (S.with_list d (ps ++ e.fresh ∷ []))))
                l)

    same_list : (cs : List (Ptr × A)) → S.list d ≡ addresses cs → S.with_list d (addresses cs) ≡ d
    same_list cs l = rw (← l) (S.with_list-list d)

    module _ (q : Ptr) (cs : List (Ptr × A)) (l : S.list d ≡ addresses cs) (h : Holds S m cs) where
      pub close_entry-absent : at q cs ≡ none → close_entry S q (world m d) ≡ ok invalid (world m d)
      unfolding close_entry
      close_entry-absent e =
          rw (l, close_loop-closed S q cs invalid (world m d) h, e) (rw (same_list cs l))

      pub close_entry-last :
          (a : A)
          → at q cs ≡ some a
          → S.owner_count a ≡ 1
          → close_entry S q (world m d)
            ≡ ok (pos 0) (world (write m q none) (S.with_list d (addresses (remove q cs))))
      unfolding close_entry decrement
      close_entry-last a e one = rw (l, close_loop-closed S q cs invalid (world m d) h, e) (rw one)

      pub close_entry-busy :
          (a : A)
          → at q cs ≡ some a
          → 1 < S.owner_count a
          → S.owner_count a < 2 ^ 32
          → close_entry S q (world m d)
            ≡ ok busy
                (world (write m q (some (S.inject (S.with_owners a (S.owner_count a - 1))))) d)
      unfolding close_entry decrement
      close_entry-busy a e more bound =
          let less : decrement (S.owner_count a) ≡ S.owner_count a - 1 = omega arith in
          let left : (decrement (S.owner_count a) == 0) ≡ false = ground arith in
          rw (l, close_loop-closed S q cs invalid (world m d) h, e)
            (rw left (rw (same_list cs l, less)))

    pub close_entries-skipped :
        (cs : List (Ptr × A))
        → S.list d ≡ addresses cs
        → Holds S m cs
        → close_entries S (world m d)
          ≡ ok
              (in_use S (deleted S cs))
              (world (free_all S m (deleted S cs)) (S.with_list d (addresses (skipped S cs))))
    unfolding close_entries
    close_entries-skipped cs l h = rw l (
        rw (
          close_all_loop_lem S (length (addresses cs) + 1) cs (world m d)
            (omega (arith, length-addresses cs)) h))
