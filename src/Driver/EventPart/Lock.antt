-- ===== src/Driver/EventPart/Lock.antt =====
-- `ipc_event_lock` and `ipc_event_unlock` for the handle of an entry.
use gipcy.Base.{
  ℕ, ◌-◌, ◌^◌, ◌<◌, ◌≤◌, ◌≡◌, refl, ap, ◌∙◌, inr, ℤ, pos, negsuc, neg, true, false, some, arith,
  ◌==◌, if◌then◌else◌, if_not,
}
use gipcy.Driver.Ioctl.{Ptr, null, invalid, lock_param, unlock_param}
use gipcy.Driver.Objects.{Event, a_event, event_id, Driver, increment, decrement}
use gipcy.Driver.Machine.{
  Env, Memory, world, ok, blocked, Returns, Cmd, pure, write, sem_post, ◌>>=◌,
}
use gipcy.Driver.Struct.{events, load}
use gipcy.Driver.Table.Cells.{at, replace, Holds-at, load-ok, at-replace, replace-at}
use gipcy.Driver.Table.Sound.{Sound-at}
use gipcy.Driver.Table.Steps.{write-write}
use gipcy.Driver.Table.Update.{InTable-replace}
use gipcy.Driver.Table.Handle.{identify-at}
use gipcy.Driver.Registry.{Registry, Realises, RealisedBy, Realises-events}
use gipcy.Driver.EventPart.{take_event, give_event, ipc_event_lock, ipc_event_unlock}

-- The entry after a lock that got the semaphore.
abbrev pub locked : Event → Event
locked s = record s { event = s.event - 1; lock_count = increment s.lock_count }

-- The entry after a wait that a signal ended.
abbrev pub signalled : Event → Event
signalled s = record s { lock_count = increment s.lock_count }

-- The entry after an unlock.
abbrev pub unlocked : Env → Event → Event
unlocked e s = record s { event = sem_post e s.event; lock_count = decrement s.lock_count }

-- The registry with other counts in one entry.
abbrev pub recount : Registry → Ptr → Event → Registry
recount r q s = record r { event_cells = replace q s r.event_cells }

module _ (e : Env) (m : Memory) (d : Driver) (r : Registry) (is : Realises e.sem_value_max m d r)
    (q : Ptr) (s : Event) (known : at q r.event_cells ≡ some s) where
  not_null : (q == null) ≡ false
  not_null = let ne = (Holds-at events m q r.event_cells is.in_events.holds known).0 in ground arith

  loads : load events q (world m d) ≡ ok s (world m d)
  loads =
      let (ne, at_q) = Holds-at events m q r.event_cells is.in_events.holds known in
      load-ok events q s (world m d) ne at_q

  -- An entry may change its counts.
  pub recount-Realises :
      (n c : ℕ)
      → let b = record s { event = n; lock_count = c } in
        Realises e.sem_value_max (write m q (some (a_event b))) d (recount r q b)
  recount-Realises n c =
      let b : Event = record s { event = n; lock_count = c } in
      let (ne, at_q) = Holds-at events m q r.event_cells is.in_events.holds known in
      let entry = Sound-at events q r.event_cells is.in_events.sound known in
      Realises-events is q (some (a_event b)) d.event_list d.event_lock d _ (inr (s, at_q)) refl (
        InTable-replace events e m d is.in_events q s b known refl (record {
          handle = entry.handle;
          magic = entry.magic;
          owned = entry.owned;
          bounded = entry.bounded;
          fits = entry.fits;
        }))

  ipc_event_lock-known :
      (timeout : ℤ)
      → ipc_event_lock e (some (lock_param q timeout)) (world m d)
        ≡ take_event e (lock_param q timeout) (world m d)
  unfolding ipc_event_lock
  ipc_event_lock-known timeout =
      ap (λ (c : Cmd ℤ). c (world m d)) (if_not (q == null) (pure invalid) _ not_null)
      ∙ (identify-at events e m d is.in_events q
          (λ id. if id == event_id then take_event e (lock_param q timeout) else pure invalid) s
          known)

  ipc_event_unlock-known :
      ipc_event_unlock e (some (unlock_param q)) (world m d) ≡ give_event e q (world m d)
  unfolding ipc_event_unlock
  ipc_event_unlock-known =
      ap (λ (c : Cmd ℤ). c (world m d)) (if_not (q == null) (pure invalid) _ not_null)
      ∙ (identify-at events e m d is.in_events q
          (λ id. if id == event_id then give_event e q else pure invalid) s known)

  pub ipc_event_lock-free :
      (timeout : ℤ)
      → 0 < s.event
      → ipc_event_lock e (some (lock_param q timeout)) (world m d)
        ≡ ok (pos 0) (world (write m q (some (a_event (locked s)))) d)
  unfolding take_event
  ipc_event_lock-free timeout free =
      let some_left : (s.event == 0) ≡ false = ground arith in
      ipc_event_lock-known timeout ∙ rw (loads, some_left)

  -- In a world that realises a registry, a lock with a negative timeout of an entry whose count is 0
  -- blocks the driver, unless a signal comes: the call never returns.
  pub ipc_event_lock-blocked :
      (n : ℕ)
      → s.event ≡ 0
      → e.interrupted ≡ false
      → ipc_event_lock e (some (lock_param q (negsuc n))) (world m d) ≡ blocked
  unfolding take_event
  ipc_event_lock-blocked n empty quiet =
      ipc_event_lock-known (negsuc n) ∙ rw loads (rw (empty, quiet))

  -- If a signal comes, the same lock succeeds, and the count stays 0.
  pub ipc_event_lock-interrupted :
      (n : ℕ)
      → s.event ≡ 0
      → e.interrupted ≡ true
      → ipc_event_lock e (some (lock_param q (negsuc n))) (world m d)
        ≡ ok (pos 0) (world (write m q (some (a_event (signalled s)))) d)
  unfolding take_event
  ipc_event_lock-interrupted n empty signal =
      ipc_event_lock-known (negsuc n) ∙ rw loads (rw (empty, signal))

  -- In a world that realises a registry, a lock with a timeout of 0 or more of an entry whose count is
  -- 0 answers -1 and changes nothing.
  pub ipc_event_lock-timeout :
      (ms : ℕ)
      → s.event ≡ 0
      → ipc_event_lock e (some (lock_param q (pos ms))) (world m d) ≡ ok (neg 1) (world m d)
  unfolding take_event
  ipc_event_lock-timeout ms empty = ipc_event_lock-known (pos ms) ∙ rw loads (rw empty)

  pub ipc_event_unlock-ok :
      ipc_event_unlock e (some (unlock_param q)) (world m d)
      ≡ ok (pos 0) (world (write m q (some (a_event (unlocked e s)))) d)
  unfolding give_event
  ipc_event_unlock-ok = ipc_event_unlock-known ∙ rw loads

  -- The counts that an unlock after a lock leaves.
  locked-unlocked :
      0 < s.event → s.event ≤ e.sem_value_max → s.lock_count < 2 ^ 32 → unlocked e (locked s) ≡ s
  unfolding sem_post increment decrement
  locked-unlocked free range bound = ground arith

module _ (e : Env) (m : Memory) (d : Driver) (r : Registry) (is : Realises e.sem_value_max m d r)
    (q : Ptr) (s : Event) (known : at q r.event_cells ≡ some s) where
  -- In a world that realises a registry with the entry `s`, whose count is not 0 and within its limit
  -- and whose lock counter has not wrapped, a lock and then an unlock both succeed and leave a world
  -- that realises the same registry.
  pub ipc_event_lock-unlock :
      (timeout : ℤ)
      → 0 < s.event
      → s.event ≤ e.sem_value_max
      → s.lock_count < 2 ^ 32
      → Returns
          (λ (x, y) w. (x ≡ pos 0) × (y ≡ pos 0) × RealisedBy e.sem_value_max w r)
          ((ipc_event_lock e (some (lock_param q timeout)) >>= λ x.
              ipc_event_unlock e (some (unlock_param q)) >>= λ y. pure (x, y))
            (world m d))
  ipc_event_lock-unlock timeout free range bound =
      let m' = write m q (some (a_event (locked s))) in
      let is' = recount-Realises e m d r is q s known (s.event - 1) (increment s.lock_count) in
      let there = at-replace q s (locked s) r.event_cells known in
      rw
        (
          ipc_event_lock-free e m d r is q s known timeout free,
          ipc_event_unlock-ok e m' d (recount r q (locked s)) is' q (locked s) there,
        )
        (
          refl,
          refl,
          record {
            memory = write m q (some (a_event s));
            driver = d;
            runs = rw (
              write-write m q (some (a_event (locked s))) (some (a_event (unlocked e (locked s)))),
              locked-unlocked e m d r is q s known free range bound,
            );
            realises =
                rw (replace-at q s r.event_cells known) at
                  (recount-Realises e m d r is q s known s.event s.lock_count);
          },
        )
