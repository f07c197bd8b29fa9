-- ===== src/Driver/SemPart/Lock.antt =====
-- `ipc_sem_lock` and `ipc_sem_unlock` for the handle of an entry.
use gipcy.Base.{
  ℕ, ◌-◌, ◌^◌, ◌<◌, ◌≤◌, ◌≡◌, refl, ap, ◌∙◌, inr, ℤ, pos, negsuc, true, false, some, arith, ◌==◌,
  if◌then◌else◌, if_not,
}
use gipcy.Driver.Ioctl.{Ptr, null, invalid, lock_param, unlock_param}
use gipcy.Driver.Objects.{Sem, a_sem, sem_id, Driver, increment, decrement}
use gipcy.Driver.Machine.{
  Env, Memory, world, ok, blocked, Returns, Cmd, pure, write, sem_post, ◌>>=◌,
}
use gipcy.Driver.Struct.{sems, load}
use gipcy.Driver.Timeout.{ms_to_timespec}
use gipcy.Driver.Table.Cells.{at, replace, Holds-at, load-ok, at-replace, replace-at}
use gipcy.Driver.Table.Sound.{Sound-at}
use gipcy.Driver.Table.Steps.{write-write}
use gipcy.Driver.Table.Update.{InTable-replace}
use gipcy.Driver.Table.Handle.{identify-at}
use gipcy.Driver.Registry.{Registry, Realises, RealisedBy, Realises-sems}
use gipcy.Driver.SemPart.{take_sem, give_sem, ipc_sem_lock, ipc_sem_unlock}

-- The entry after a lock that got the semaphore.
abbrev pub locked : Sem → Sem
locked s = record s { sem = s.sem - 1; lock_count = increment s.lock_count }

-- The entry after a wait that a signal ended.
abbrev pub signalled : Sem → Sem
signalled s = record s { lock_count = increment s.lock_count }

-- The entry after an unlock.
abbrev pub unlocked : Env → Sem → Sem
unlocked e s = record s { sem = sem_post e s.sem; lock_count = decrement s.lock_count }

-- The registry with other counts in one entry.
abbrev pub recount : Registry → Ptr → Sem → Registry
recount r q s = record r { sem_cells = replace q s r.sem_cells }

module _ (e : Env) (m : Memory) (d : Driver) (r : Registry) (is : Realises e.sem_value_max m d r)
    (q : Ptr) (s : Sem) (known : at q r.sem_cells ≡ some s) where
  not_null : (q == null) ≡ false
  not_null = let ne = (Holds-at sems m q r.sem_cells is.in_sems.holds known).0 in ground arith

  loads : load sems q (world m d) ≡ ok s (world m d)
  loads =
      let (ne, at_q) = Holds-at sems m q r.sem_cells is.in_sems.holds known in
      load-ok sems q s (world m d) ne at_q

  -- An entry may change its counts.
  pub recount-Realises :
      (n c : ℕ)
      → let b = record s { sem = n; lock_count = c } in
        Realises e.sem_value_max (write m q (some (a_sem b))) d (recount r q b)
  recount-Realises n c =
      let b : Sem = record s { sem = n; lock_count = c } in
      let (ne, at_q) = Holds-at sems m q r.sem_cells is.in_sems.holds known in
      let entry = Sound-at sems q r.sem_cells is.in_sems.sound known in
      Realises-sems is q (some (a_sem b)) d.sem_list d.sem_lock d _ (inr (s, at_q)) refl (
        InTable-replace sems e m d is.in_sems q s b known refl (record {
          handle = entry.handle;
          magic = entry.magic;
          owned = entry.owned;
          bounded = entry.bounded;
          fits = entry.fits;
        }))

  ipc_sem_lock-known :
      (timeout : ℤ)
      → ipc_sem_lock e (some (lock_param q timeout)) (world m d)
        ≡ take_sem e (lock_param q timeout) (world m d)
  unfolding ipc_sem_lock
  ipc_sem_lock-known timeout =
      ap (λ (c : Cmd ℤ). c (world m d)) (if_not (q == null) (pure invalid) _ not_null)
      ∙ (identify-at sems e m d is.in_sems q
          (λ id. if id == sem_id then take_sem e (lock_param q timeout) else pure invalid) s known)

  ipc_sem_unlock-known :
      ipc_sem_unlock e (some (unlock_param q)) (world m d) ≡ give_sem e (unlock_param q) (world m d)
  unfolding ipc_sem_unlock
  ipc_sem_unlock-known =
      ap (λ (c : Cmd ℤ). c (world m d)) (if_not (q == null) (pure invalid) _ not_null)
      ∙ (identify-at sems e m d is.in_sems q
          (λ id. if id == sem_id then give_sem e (unlock_param q) else pure invalid) s known)

  pub ipc_sem_lock-free :
      (timeout : ℤ)
      → 0 < s.sem
      → ipc_sem_lock e (some (lock_param q timeout)) (world m d)
        ≡ ok (pos 0) (world (write m q (some (a_sem (locked s)))) d)
  unfolding take_sem
  ipc_sem_lock-free timeout free =
      let some_left : (s.sem == 0) ≡ false = ground arith in
      ipc_sem_lock-known timeout ∙ rw (loads, some_left)

  -- In a world that realises a registry, a lock with a negative timeout of an entry whose count is 0
  -- blocks the driver, unless a signal comes: the call never returns.
  pub ipc_sem_lock-blocked :
      (n : ℕ)
      → s.sem ≡ 0
      → e.interrupted ≡ false
      → ipc_sem_lock e (some (lock_param q (negsuc n))) (world m d) ≡ blocked
  unfolding take_sem
  ipc_sem_lock-blocked n empty quiet = ipc_sem_lock-known (negsuc n) ∙ rw loads (rw (empty, quiet))

  -- If a signal comes, the same lock succeeds, and the count stays 0.
  pub ipc_sem_lock-interrupted :
      (n : ℕ)
      → s.sem ≡ 0
      → e.interrupted ≡ true
      → ipc_sem_lock e (some (lock_param q (negsuc n))) (world m d)
        ≡ ok (pos 0) (world (write m q (some (a_sem (signalled s)))) d)
  unfolding take_sem
  ipc_sem_lock-interrupted n empty signal =
      ipc_sem_lock-known (negsuc n) ∙ rw loads (rw (empty, signal))

  -- In a world that realises a registry, a lock with a timeout of 0 or more of an entry whose count is
  -- 0 answers `errno` as it is, which is not negative, and changes nothing.
  pub ipc_sem_lock-timeout :
      (ms : ℕ)
      → s.sem ≡ 0
      → ipc_sem_lock e (some (lock_param q (pos ms))) (world m d)
        ≡ ok (pos (e.wait_errno (ms_to_timespec e ms))) (world m d)
  unfolding take_sem
  ipc_sem_lock-timeout ms empty = ipc_sem_lock-known (pos ms) ∙ rw loads (rw empty)

  pub ipc_sem_unlock-ok :
      ipc_sem_unlock e (some (unlock_param q)) (world m d)
      ≡ ok (pos 0) (world (write m q (some (a_sem (unlocked e s)))) d)
  unfolding give_sem
  ipc_sem_unlock-ok = ipc_sem_unlock-known ∙ rw loads

  -- The counts that an unlock after a lock leaves.
  locked-unlocked :
      0 < s.sem → s.sem ≤ e.sem_value_max → s.lock_count < 2 ^ 32 → unlocked e (locked s) ≡ s
  unfolding sem_post increment decrement
  locked-unlocked free range bound = ground arith

module _ (e : Env) (m : Memory) (d : Driver) (r : Registry) (is : Realises e.sem_value_max m d r)
    (q : Ptr) (s : Sem) (known : at q r.sem_cells ≡ some s) where
  -- In a world that realises a registry with the entry `s`, whose count is not 0 and within its limit
  -- and whose lock counter has not wrapped, a lock and then an unlock both succeed and leave a world
  -- that realises the same registry.
  pub ipc_sem_lock-unlock :
      (timeout : ℤ)
      → 0 < s.sem
      → s.sem ≤ e.sem_value_max
      → s.lock_count < 2 ^ 32
      → Returns
          (λ (x, y) w. (x ≡ pos 0) × (y ≡ pos 0) × RealisedBy e.sem_value_max w r)
          ((ipc_sem_lock e (some (lock_param q timeout)) >>= λ x.
              ipc_sem_unlock e (some (unlock_param q)) >>= λ y. pure (x, y))
            (world m d))
  ipc_sem_lock-unlock timeout free range bound =
      let m' = write m q (some (a_sem (locked s))) in
      let is' = recount-Realises e m d r is q s known (s.sem - 1) (increment s.lock_count) in
      let there = at-replace q s (locked s) r.sem_cells known in
      rw
        (
          ipc_sem_lock-free e m d r is q s known timeout free,
          ipc_sem_unlock-ok e m' d (recount r q (locked s)) is' q (locked s) there,
        )
        (
          refl,
          refl,
          record {
            memory = write m q (some (a_sem s));
            driver = d;
            runs = rw (
              write-write m q (some (a_sem (locked s))) (some (a_sem (unlocked e (locked s)))),
              locked-unlocked e m d r is q s known free range bound,
            );
            realises =
                rw (replace-at q s r.sem_cells known) at
                  (recount-Realises e m d r is q s known s.sem s.lock_count);
          },
        )
