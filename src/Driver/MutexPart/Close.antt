-- ===== src/Driver/MutexPart/Close.antt =====
-- Closing: `ipc_mutex_close` and `ipc_mutex_close_all`.
use gipcy.Base.{◌-◌, ◌≡◌, ap, ◌∙◌, ℤ, pos, false, some, arith, ◌==◌, if◌then◌else◌, if_not}
use gipcy.Driver.Ioctl.{Ptr, null, invalid, busy, close_param}
use gipcy.Driver.Objects.{Mutex, Driver}
use gipcy.Driver.Machine.{Env, Memory, world, ok, Returns, Cmd, pure, ◌>>=◌}
use gipcy.Driver.Struct.{mutexes, post_lock}
use gipcy.Driver.Table.{close_entry}
use gipcy.Driver.Table.Cells.{at, addresses, Holds-at}
use gipcy.Driver.Table.Walk.{skipped, deleted, in_use, free_all}
use gipcy.Driver.Table.Update.{restored}
use gipcy.Driver.Table.Spec.{close_cells, close_result, close-Update, close_all-skipped}
use gipcy.Driver.Table.Handle.{waited-at}
use gipcy.Driver.Registry.{Registry, Realises, RealisedBy, Returns-mutexes}
use gipcy.Driver.MutexPart.{ipc_mutex_close, ipc_mutex_close_all}

module _ (e : Env) (m : Memory) (d : Driver) (r : Registry)
    (is : Realises e.sem_value_max m d r) where
  known_not_null : (q : Ptr) (s : Mutex) → at q r.mutex_cells ≡ some s → (q == null) ≡ false
  known_not_null q s known =
      let ne = (Holds-at mutexes m q r.mutex_cells is.in_mutexes.holds known).0 in ground arith

  -- Up to the loop: the lock is taken, and the identifier has been read.
  ipc_mutex_close-known :
      (q : Ptr) (s : Mutex)
      → at q r.mutex_cells ≡ some s
      → ipc_mutex_close e (some (close_param q)) (world m d)
        ≡ (close_entry mutexes q >>= λ error. post_lock mutexes e >>= λ _. pure error)
            (world m (record d { mutex_lock = d.mutex_lock - 1 }))
  unfolding ipc_mutex_close
  ipc_mutex_close-known q s known =
      ap (λ (c : Cmd ℤ). c (world m d))
        (if_not (q == null) (pure invalid) _ (known_not_null q s known))
      ∙ waited-at mutexes e m d is.in_mutexes q
          (λ id. close_entry mutexes q >>= λ error. post_lock mutexes e >>= λ _. pure error) s known

  -- In a world that realises a registry, for the handle of an entry, ipc_mutex_close answers 0 and
  -- removes the entry if it had one owner, and else answers -EBUSY and takes one owner off; the world
  -- then realises the registry so changed.
  pub ipc_mutex_close-Realises :
      (q : Ptr) (s : Mutex)
      → at q r.mutex_cells ≡ some s
      → Returns
          (λ x w.
            (x ≡ close_result mutexes q r.mutex_cells)
            × RealisedBy e.sem_value_max w
                (record r { mutex_cells = close_cells mutexes q r.mutex_cells }))
          (ipc_mutex_close e (some (close_param q)) (world m d))
  ipc_mutex_close-Realises q s known =
      let back = restored mutexes e m d is.in_mutexes.unlocked is.in_mutexes.in_range in
      rw (ipc_mutex_close-known q s known) (
        Returns-mutexes is (close_result mutexes q r.mutex_cells)
          (close_cells mutexes q r.mutex_cells) _
          (close-Update mutexes e m d is.in_mutexes q (d.mutex_lock - 1) s
            (rw back is.in_mutexes.unlocked) (rw back is.in_mutexes.in_range) known))

  -- In a world that realises a registry, ipc_mutex_close_all frees the first entry, the third and so on,
  -- leaves the others in the list and in memory, and answers -EBUSY exactly if a freed one had owners.
  ipc_mutex_close_all-skipped :
      ipc_mutex_close_all e (world m d)
      ≡ ok (if in_use mutexes (deleted mutexes r.mutex_cells) == 0 then pos 0 else busy) (
          world
            (free_all mutexes m (deleted mutexes r.mutex_cells))
            (record d { mutex_list = addresses (skipped mutexes r.mutex_cells) }))
  unfolding ipc_mutex_close_all
  ipc_mutex_close_all-skipped =
      close_all-skipped mutexes e m d is.in_mutexes (λ used. if used == 0 then pos 0 else busy)
