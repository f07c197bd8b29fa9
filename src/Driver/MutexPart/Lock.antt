-- ===== src/Driver/MutexPart/Lock.antt =====
-- `ipc_mutex_lock` and `ipc_mutex_unlock` for the handle of an entry.
use gipcy.Base.{
  ℕ, ◌-◌, ◌^◌, ◌<◌, ◌≤◌, ◌≡◌, refl, ap, ◌∙◌, inr, ℤ, pos, negsuc, neg, true, false, some, arith,
  ◌==◌, if◌then◌else◌, if_not,
}
use gipcy.Driver.Ioctl.{Ptr, null, invalid, lock_param, unlock_param}
use gipcy.Driver.Objects.{Mutex, a_mutex, mutex_id, Driver, increment, decrement}
use gipcy.Driver.Machine.{
  Env, Memory, world, ok, blocked, Returns, Cmd, pure, write, sem_post, ◌>>=◌,
}
use gipcy.Driver.Struct.{mutexes, load}
use gipcy.Driver.Table.Cells.{at, replace, Holds-at, load-ok, at-replace, replace-at}
use gipcy.Driver.Table.Sound.{Sound-at}
use gipcy.Driver.Table.Steps.{write-write}
use gipcy.Driver.Table.Update.{InTable-replace}
use gipcy.Driver.Table.Handle.{identify-at}
use gipcy.Driver.Registry.{Registry, Realises, RealisedBy, Realises-mutexes}
use gipcy.Driver.MutexPart.{take_mutex, give_mutex, ipc_mutex_lock, ipc_mutex_unlock}

-- The entry after a lock that got the semaphore.
abbrev pub locked : Mutex → Mutex
locked s = record s { mutex = s.mutex - 1; lock_count = increment s.lock_count }

-- The entry after a wait that a signal ended.
abbrev pub signalled : Mutex → Mutex
signalled s = record s { lock_count = increment s.lock_count }

-- The entry after an unlock.
abbrev pub unlocked : Env → Mutex → Mutex
unlocked e s = record s { mutex = sem_post e s.mutex; lock_count = decrement s.lock_count }

-- The registry with other counts in one entry.
abbrev pub recount : Registry → Ptr → Mutex → Registry
recount r q s = record r { mutex_cells = replace q s r.mutex_cells }

module _ (e : Env) (m : Memory) (d : Driver) (r : Registry) (is : Realises e.sem_value_max m d r)
    (q : Ptr) (s : Mutex) (known : at q r.mutex_cells ≡ some s) where
  not_null : (q == null) ≡ false
  not_null =
      let ne = (Holds-at mutexes m q r.mutex_cells is.in_mutexes.holds known).0 in ground arith

  loads : load mutexes q (world m d) ≡ ok s (world m d)
  loads =
      let (ne, at_q) = Holds-at mutexes m q r.mutex_cells is.in_mutexes.holds known in
      load-ok mutexes q s (world m d) ne at_q

  -- An entry may change its counts.
  pub recount-Realises :
      (n c : ℕ)
      → let b = record s { mutex = n; lock_count = c } in
        Realises e.sem_value_max (write m q (some (a_mutex b))) d (recount r q b)
  recount-Realises n c =
      let b : Mutex = record s { mutex = n; lock_count = c } in
      let (ne, at_q) = Holds-at mutexes m q r.mutex_cells is.in_mutexes.holds known in
      let entry = Sound-at mutexes q r.mutex_cells is.in_mutexes.sound known in
      Realises-mutexes is q (some (a_mutex b)) d.mutex_list d.mutex_lock d _ (inr (s, at_q)) refl (
        InTable-replace mutexes e m d is.in_mutexes q s b known refl (record {
          handle = entry.handle;
          magic = entry.magic;
          owned = entry.owned;
          bounded = entry.bounded;
          fits = entry.fits;
        }))

  ipc_mutex_lock-known :
      (timeout : ℤ)
      → ipc_mutex_lock e (some (lock_param q timeout)) (world m d)
        ≡ take_mutex e (lock_param q timeout) (world m d)
  unfolding ipc_mutex_lock
  ipc_mutex_lock-known timeout =
      ap (λ (c : Cmd ℤ). c (world m d)) (if_not (q == null) (pure invalid) _ not_null)
      ∙ (identify-at mutexes e m d is.in_mutexes q
          (λ id. if id == mutex_id then take_mutex e (lock_param q timeout) else pure invalid) s
          known)

  ipc_mutex_unlock-known :
      ipc_mutex_unlock e (some (unlock_param q)) (world m d) ≡ give_mutex e q (world m d)
  unfolding ipc_mutex_unlock
  ipc_mutex_unlock-known =
      ap (λ (c : Cmd ℤ). c (world m d)) (if_not (q == null) (pure invalid) _ not_null)
      ∙ (identify-at mutexes e m d is.in_mutexes q
          (λ id. if id == mutex_id then give_mutex e q else pure invalid) s known)

  pub ipc_mutex_lock-free :
      (timeout : ℤ)
      → 0 < s.mutex
      → ipc_mutex_lock e (some (lock_param q timeout)) (world m d)
        ≡ ok (pos 0) (world (write m q (some (a_mutex (locked s)))) d)
  unfolding take_mutex
  ipc_mutex_lock-free timeout free =
      let some_left : (s.mutex == 0) ≡ false = ground arith in
      ipc_mutex_lock-known timeout ∙ rw (loads, some_left)

  -- In a world that realises a registry, a lock with a negative timeout of an entry whose count is 0
  -- blocks the driver, unless a signal comes: the call never returns.
  pub ipc_mutex_lock-blocked :
      (n : ℕ)
      → s.mutex ≡ 0
      → e.interrupted ≡ false
      → ipc_mutex_lock e (some (lock_param q (negsuc n))) (world m d) ≡ blocked
  unfolding take_mutex
  ipc_mutex_lock-blocked n empty quiet =
      ipc_mutex_lock-known (negsuc n) ∙ rw loads (rw (empty, quiet))

  -- If a signal comes, the same lock succeeds, and the count stays 0.
  pub ipc_mutex_lock-interrupted :
      (n : ℕ)
      → s.mutex ≡ 0
      → e.interrupted ≡ true
      → ipc_mutex_lock e (some (lock_param q (negsuc n))) (world m d)
        ≡ ok (pos 0) (world (write m q (some (a_mutex (signalled s)))) d)
  unfolding take_mutex
  ipc_mutex_lock-interrupted n empty signal =
      ipc_mutex_lock-known (negsuc n) ∙ rw loads (rw (empty, signal))

  -- In a world that realises a registry, a lock with a timeout of 0 or more of an entry whose count is
  -- 0 answers -1 and changes nothing.
  pub ipc_mutex_lock-timeout :
      (ms : ℕ)
      → s.mutex ≡ 0
      → ipc_mutex_lock e (some (lock_param q (pos ms))) (world m d) ≡ ok (neg 1) (world m d)
  unfolding take_mutex
  ipc_mutex_lock-timeout ms empty = ipc_mutex_lock-known (pos ms) ∙ rw loads (rw empty)

  pub ipc_mutex_unlock-ok :
      ipc_mutex_unlock e (some (unlock_param q)) (world m d)
      ≡ ok (pos 0) (world (write m q (some (a_mutex (unlocked e s)))) d)
  unfolding give_mutex
  ipc_mutex_unlock-ok = ipc_mutex_unlock-known ∙ rw loads

  -- The counts that an unlock after a lock leaves.
  locked-unlocked :
      0 < s.mutex → s.mutex ≤ e.sem_value_max → s.lock_count < 2 ^ 32 → unlocked e (locked s) ≡ s
  unfolding sem_post increment decrement
  locked-unlocked free range bound = ground arith

module _ (e : Env) (m : Memory) (d : Driver) (r : Registry) (is : Realises e.sem_value_max m d r)
    (q : Ptr) (s : Mutex) (known : at q r.mutex_cells ≡ some s) where
  -- In a world that realises a registry with the entry `s`, whose count is not 0 and within its limit
  -- and whose lock counter has not wrapped, a lock and then an unlock both succeed and leave a world
  -- that realises the same registry.
  pub ipc_mutex_lock-unlock :
      (timeout : ℤ)
      → 0 < s.mutex
      → s.mutex ≤ e.sem_value_max
      → s.lock_count < 2 ^ 32
      → Returns
          (λ (x, y) w. (x ≡ pos 0) × (y ≡ pos 0) × RealisedBy e.sem_value_max w r)
          ((ipc_mutex_lock e (some (lock_param q timeout)) >>= λ x.
              ipc_mutex_unlock e (some (unlock_param q)) >>= λ y. pure (x, y))
            (world m d))
  ipc_mutex_lock-unlock timeout free range bound =
      let m' = write m q (some (a_mutex (locked s))) in
      let is' = recount-Realises e m d r is q s known (s.mutex - 1) (increment s.lock_count) in
      let there = at-replace q s (locked s) r.mutex_cells known in
      rw
        (
          ipc_mutex_lock-free e m d r is q s known timeout free,
          ipc_mutex_unlock-ok e m' d (recount r q (locked s)) is' q (locked s) there,
        )
        (
          refl,
          refl,
          record {
            memory = write m q (some (a_mutex s));
            driver = d;
            runs = rw (
              write-write m q (some (a_mutex (locked s))) (some (a_mutex (unlocked e (locked s)))),
              locked-unlocked e m d r is q s known free range bound,
            );
            realises =
                rw (replace-at q s r.mutex_cells known) at
                  (recount-Realises e m d r is q s known s.mutex s.lock_count);
          },
        )
