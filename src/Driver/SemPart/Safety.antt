-- ===== src/Driver/SemPart/Safety.antt =====
-- No operation of this part follows a bad pointer, for the handles that a client may use.
use gipcy.Base.{
  ℕ, ◌-◌, ◌<◌, ◌≡◌, refl, ◌≢◌, inl, inr, ℤ, pos, negsuc, Bool-cases, ◌==◌, none, some, arith,
  length,
}
use gipcy.Driver.Ioctl.{
  Ptr, null, invalid, name_size, lock_param, unlock_param, close_param, CreateParam,
}
use gipcy.Driver.Objects.{Sem, Driver, increment, decrement}
use gipcy.Driver.Machine.{Env, Memory, world, ok, write, sem_post}
use gipcy.Driver.Struct.{sems}
use gipcy.Driver.Table.Cells.{at}
use gipcy.Driver.Table.Spec.{HasRoom}
use gipcy.Driver.Registry.{Registry, Realises, Safe, Returns-Safe, Usable}
use gipcy.Driver.SemPart.{ipc_sem_create, ipc_sem_close, ipc_sem_lock, ipc_sem_unlock}
use gipcy.Driver.SemPart.Open.{ipc_sem_create-Realises}
use gipcy.Driver.SemPart.Lock.{
  recount, recount-Realises, ipc_sem_lock-free, ipc_sem_lock-blocked, ipc_sem_lock-interrupted,
  ipc_sem_lock-timeout, ipc_sem_unlock-ok,
}
use gipcy.Driver.SemPart.Close.{ipc_sem_close-Realises}

module _ (e : Env) (m : Memory) (d : Driver) (r : Registry)
    (is : Realises e.sem_value_max m d r) where
  stays : {X : Type 0} (x : X) → Safe e.sem_value_max (ok x (world m d))
  stays x = (r, record { memory = m; driver = d; runs = refl; realises = is })

  pub ipc_sem_create-Safe :
      (param : CreateParam)
      → length param.name < name_size
      → HasRoom sems param.name r.sem_cells
      → e.fresh ≢ null
      → m e.fresh ≡ none
      → Safe e.sem_value_max (ipc_sem_create e (some param) (world m d))
  ipc_sem_create-Safe param fits room ne free =
      Returns-Safe e.sem_value_max _ _ _
        (ipc_sem_create-Realises e m d r is param fits room ne free)

  ipc_sem_close-null :
      (q : Ptr)
      → q ≡ null
      → ipc_sem_close e (some (close_param q)) (world m d) ≡ ok invalid (world m d)
  unfolding ipc_sem_close
  ipc_sem_close-null q e = rw e

  pub ipc_sem_close-Safe :
      (q : Ptr)
      → Usable q r.sem_cells
      → Safe e.sem_value_max (ipc_sem_close e (some (close_param q)) (world m d))
  ipc_sem_close-Safe q (inl z) = rw (ipc_sem_close-null q z) (stays invalid)
  ipc_sem_close-Safe q (inr (s, known)) =
      Returns-Safe e.sem_value_max _ _ _ (ipc_sem_close-Realises e m d r is q s known)

  counted :
      (q : Ptr) (s : Sem) (n c : ℕ) (x : ℤ)
      → at q r.sem_cells ≡ some s
      → let b = record s { sem = n; lock_count = c } in
        Safe e.sem_value_max (ok x (world (write m q (some (sems.inject b))) d))
  counted q s n c x known = (
    recount r q (record s { sem = n; lock_count = c }),
    record {
      memory = write m q (some (sems.inject (record s { sem = n; lock_count = c })));
      driver = d;
      runs = refl;
      realises = recount-Realises e m d r is q s known n c;
    },
  )

  ipc_sem_unlock-null :
      (q : Ptr)
      → q ≡ null
      → ipc_sem_unlock e (some (unlock_param q)) (world m d) ≡ ok invalid (world m d)
  unfolding ipc_sem_unlock
  ipc_sem_unlock-null q e = rw e

  pub ipc_sem_unlock-Safe :
      (q : Ptr)
      → Usable q r.sem_cells
      → Safe e.sem_value_max (ipc_sem_unlock e (some (unlock_param q)) (world m d))
  ipc_sem_unlock-Safe q (inl z) = rw (ipc_sem_unlock-null q z) (stays invalid)
  ipc_sem_unlock-Safe q (inr (s, known)) =
      rw (ipc_sem_unlock-ok e m d r is q s known)
        (counted q s (sem_post e s.sem) (decrement s.lock_count) (pos 0) known)

  ipc_sem_lock-null :
      (q : Ptr) (t : ℤ)
      → q ≡ null
      → ipc_sem_lock e (some (lock_param q t)) (world m d) ≡ ok invalid (world m d)
  unfolding ipc_sem_lock
  ipc_sem_lock-null q t e = rw e

  pub ipc_sem_lock-Safe :
      (q : Ptr) (t : ℤ)
      → Usable q r.sem_cells
      → Safe e.sem_value_max (ipc_sem_lock e (some (lock_param q t)) (world m d))
  ipc_sem_lock-Safe q (pos ms) (inl z) = rw (ipc_sem_lock-null q (pos ms) z) (stays invalid)
  ipc_sem_lock-Safe q (negsuc n) (inl z) = rw (ipc_sem_lock-null q (negsuc n) z) (stays invalid)
  ipc_sem_lock-Safe q (pos ms) (inr (s, known)) = elim (Bool-cases (s.sem == 0)) [
    | inl z ↦ rw (ipc_sem_lock-timeout e m d r is q s known ms (ground arith)) (stays invalid)
    | inr z ↦
        rw (ipc_sem_lock-free e m d r is q s known (pos ms) (ground arith))
          (counted q s (s.sem - 1) (increment s.lock_count) (pos 0) known)
  ]
  ipc_sem_lock-Safe q (negsuc n) (inr (s, known)) = elim (Bool-cases (s.sem == 0)) [
    | inl z ↦ elim (Bool-cases e.interrupted) [
      | inl signal ↦
          rw (ipc_sem_lock-interrupted e m d r is q s known n (ground arith) signal)
            (counted q s s.sem (increment s.lock_count) (pos 0) known)
      | inr quiet ↦ rw (ipc_sem_lock-blocked e m d r is q s known n (ground arith) quiet) tt
    ]
    | inr z ↦
        rw (ipc_sem_lock-free e m d r is q s known (negsuc n) (ground arith))
          (counted q s (s.sem - 1) (increment s.lock_count) (pos 0) known)
  ]
