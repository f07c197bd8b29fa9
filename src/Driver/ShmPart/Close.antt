-- ===== src/Driver/ShmPart/Close.antt =====
-- Closing: `ipc_shm_close` and `ipc_shm_close_all`.
use gipcy.Base.{◌≡◌, refl, ap, ◌∙◌, ℤ, pos, false, some, arith, ◌==◌, if◌then◌else◌, if_not}
use gipcy.Driver.Ioctl.{Ptr, null, invalid, busy, close_param}
use gipcy.Driver.Objects.{Shm, mutex_id, Driver}
use gipcy.Driver.Machine.{Env, Memory, world, ok, Cmd, pure}
use gipcy.Driver.Struct.{shms}
use gipcy.Driver.Table.{close_entry}
use gipcy.Driver.Table.Cells.{at, addresses, Holds-at}
use gipcy.Driver.Table.Walk.{skipped, deleted, in_use, free_all}
use gipcy.Driver.Table.Spec.{close_all-skipped}
use gipcy.Driver.Table.Handle.{refused-at}
use gipcy.Driver.Registry.{Registry, Realises}
use gipcy.Driver.ShmPart.{ipc_shm_close, ipc_shm_close_all}

module _ (e : Env) (m : Memory) (d : Driver) (r : Registry)
    (is : Realises e.sem_value_max m d r) where
  known_not_null : (q : Ptr) (s : Shm) → at q r.shm_cells ≡ some s → (q == null) ≡ false
  known_not_null q s known =
      let ne = (Holds-at shms m q r.shm_cells is.in_shms.holds known).0 in ground arith

  -- In a world that realises a registry, ipc_shm_close answers -EINVAL to the handle of an entry of its
  -- own table, however many owners that has, and changes nothing: no entry is ever closed.
  pub ipc_shm_close-refused :
      (q : Ptr) (s : Shm)
      → at q r.shm_cells ≡ some s
      → ipc_shm_close e (some (close_param q)) (world m d) ≡ ok invalid (world m d)
  unfolding ipc_shm_close
  ipc_shm_close-refused q s known =
      ap (λ (c : Cmd ℤ). c (world m d))
        (if_not (q == null) (pure invalid) _ (known_not_null q s known))
      ∙ refused-at shms e m d is.in_shms q
          (λ id. if id == mutex_id then close_entry shms q else pure invalid) s known (λ d'. refl)

  -- In a world that realises a registry, ipc_shm_close_all frees the first entry, the third and so on,
  -- leaves the others in the list and in memory, and answers -EBUSY exactly if a freed one had owners.
  ipc_shm_close_all-skipped :
      ipc_shm_close_all e (world m d)
      ≡ ok (if in_use shms (deleted shms r.shm_cells) == 0 then pos 0 else busy) (
          world
            (free_all shms m (deleted shms r.shm_cells))
            (record d { shm_list = addresses (skipped shms r.shm_cells) }))
  unfolding ipc_shm_close_all
  ipc_shm_close_all-skipped =
      close_all-skipped shms e m d is.in_shms (λ used. if used == 0 then pos 0 else busy)
