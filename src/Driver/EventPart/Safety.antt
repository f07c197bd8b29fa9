-- ===== src/Driver/EventPart/Safety.antt =====
-- No operation of this part follows a bad pointer, for the handles that a client may use.
use gipcy.Base.{
  ℕ, ◌-◌, ◌<◌, ◌≡◌, refl, ◌≢◌, inl, inr, ℤ, pos, negsuc, Bool-cases, ◌==◌, none, some, arith,
  length,
}
use gipcy.Driver.Ioctl.{
  Ptr, null, invalid, name_size, lock_param, unlock_param, close_param, CreateParam,
}
use gipcy.Driver.Objects.{Event, Driver, increment, decrement}
use gipcy.Driver.Machine.{Env, Memory, world, ok, write, sem_post}
use gipcy.Driver.Struct.{events}
use gipcy.Driver.Table.Cells.{at}
use gipcy.Driver.Table.Spec.{HasRoom}
use gipcy.Driver.Registry.{Registry, Realises, Safe, Returns-Safe, Usable}
use gipcy.Driver.EventPart.{
  ipc_event_create, ipc_event_close, ipc_event_lock, ipc_event_unlock, ipc_event_reset,
}
use gipcy.Driver.EventPart.Open.{ipc_event_create-Realises}
use gipcy.Driver.EventPart.Lock.{
  recount, recount-Realises, ipc_event_lock-free, ipc_event_lock-blocked,
  ipc_event_lock-interrupted, ipc_event_lock-timeout, ipc_event_unlock-ok,
}
use gipcy.Driver.EventPart.Close.{ipc_event_close-refused, ipc_event_reset-refused}

module _ (e : Env) (m : Memory) (d : Driver) (r : Registry)
    (is : Realises e.sem_value_max m d r) where
  stays : {X : Type 0} (x : X) → Safe e.sem_value_max (ok x (world m d))
  stays x = (r, record { memory = m; driver = d; runs = refl; realises = is })

  pub ipc_event_create-Safe :
      (param : CreateParam)
      → length param.name < name_size
      → HasRoom events param.name r.event_cells
      → e.fresh ≢ null
      → m e.fresh ≡ none
      → Safe e.sem_value_max (ipc_event_create e (some param) (world m d))
  ipc_event_create-Safe param fits room ne free =
      Returns-Safe e.sem_value_max _ _ _
        (ipc_event_create-Realises e m d r is param fits room ne free)

  ipc_event_close-null :
      (q : Ptr)
      → q ≡ null
      → ipc_event_close e (some (close_param q)) (world m d) ≡ ok invalid (world m d)
  unfolding ipc_event_close
  ipc_event_close-null q e = rw e

  pub ipc_event_close-Safe :
      (q : Ptr)
      → Usable q r.event_cells
      → Safe e.sem_value_max (ipc_event_close e (some (close_param q)) (world m d))
  ipc_event_close-Safe q (inl z) = rw (ipc_event_close-null q z) (stays invalid)
  ipc_event_close-Safe q (inr (s, known)) =
      rw (ipc_event_close-refused e m d r is q s known) (stays invalid)

  ipc_event_reset-null :
      (q : Ptr)
      → q ≡ null
      → ipc_event_reset e (some (record { handle = q })) (world m d) ≡ ok invalid (world m d)
  unfolding ipc_event_reset
  ipc_event_reset-null q e = rw e

  pub ipc_event_reset-Safe :
      (q : Ptr)
      → Usable q r.event_cells
      → Safe e.sem_value_max (ipc_event_reset e (some (record { handle = q })) (world m d))
  ipc_event_reset-Safe q (inl z) = rw (ipc_event_reset-null q z) (stays invalid)
  ipc_event_reset-Safe q (inr (s, known)) =
      rw (ipc_event_reset-refused e m d r is q s known) (stays invalid)

  counted :
      (q : Ptr) (s : Event) (n c : ℕ) (x : ℤ)
      → at q r.event_cells ≡ some s
      → let b = record s { event = n; lock_count = c } in
        Safe e.sem_value_max (ok x (world (write m q (some (events.inject b))) d))
  counted q s n c x known = (
    recount r q (record s { event = n; lock_count = c }),
    record {
      memory = write m q (some (events.inject (record s { event = n; lock_count = c })));
      driver = d;
      runs = refl;
      realises = recount-Realises e m d r is q s known n c;
    },
  )

  ipc_event_unlock-null :
      (q : Ptr)
      → q ≡ null
      → ipc_event_unlock e (some (unlock_param q)) (world m d) ≡ ok invalid (world m d)
  unfolding ipc_event_unlock
  ipc_event_unlock-null q e = rw e

  pub ipc_event_unlock-Safe :
      (q : Ptr)
      → Usable q r.event_cells
      → Safe e.sem_value_max (ipc_event_unlock e (some (unlock_param q)) (world m d))
  ipc_event_unlock-Safe q (inl z) = rw (ipc_event_unlock-null q z) (stays invalid)
  ipc_event_unlock-Safe q (inr (s, known)) =
      rw (ipc_event_unlock-ok e m d r is q s known)
        (counted q s (sem_post e s.event) (decrement s.lock_count) (pos 0) known)

  ipc_event_lock-null :
      (q : Ptr) (t : ℤ)
      → q ≡ null
      → ipc_event_lock e (some (lock_param q t)) (world m d) ≡ ok invalid (world m d)
  unfolding ipc_event_lock
  ipc_event_lock-null q t e = rw e

  pub ipc_event_lock-Safe :
      (q : Ptr) (t : ℤ)
      → Usable q r.event_cells
      → Safe e.sem_value_max (ipc_event_lock e (some (lock_param q t)) (world m d))
  ipc_event_lock-Safe q (pos ms) (inl z) = rw (ipc_event_lock-null q (pos ms) z) (stays invalid)
  ipc_event_lock-Safe q (negsuc n) (inl z) = rw (ipc_event_lock-null q (negsuc n) z) (stays invalid)
  ipc_event_lock-Safe q (pos ms) (inr (s, known)) = elim (Bool-cases (s.event == 0)) [
    | inl z ↦ rw (ipc_event_lock-timeout e m d r is q s known ms (ground arith)) (stays invalid)
    | inr z ↦
        rw (ipc_event_lock-free e m d r is q s known (pos ms) (ground arith))
          (counted q s (s.event - 1) (increment s.lock_count) (pos 0) known)
  ]
  ipc_event_lock-Safe q (negsuc n) (inr (s, known)) = elim (Bool-cases (s.event == 0)) [
    | inl z ↦ elim (Bool-cases e.interrupted) [
      | inl signal ↦
          rw (ipc_event_lock-interrupted e m d r is q s known n (ground arith) signal)
            (counted q s s.event (increment s.lock_count) (pos 0) known)
      | inr quiet ↦ rw (ipc_event_lock-blocked e m d r is q s known n (ground arith) quiet) tt
    ]
    | inr z ↦
        rw (ipc_event_lock-free e m d r is q s known (negsuc n) (ground arith))
          (counted q s (s.event - 1) (increment s.lock_count) (pos 0) known)
  ]
