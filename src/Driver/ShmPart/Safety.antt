-- ===== src/Driver/ShmPart/Safety.antt =====
-- No operation of this part follows a bad pointer, for the handles that a client may use.
use gipcy.Base.{◌<◌, ◌≡◌, refl, ◌≢◌, inl, inr, none, some, length}
use gipcy.Driver.Ioctl.{Ptr, null, invalid, name_size, close_param, CreateParam}
use gipcy.Driver.Objects.{Driver}
use gipcy.Driver.Machine.{Env, Memory, world, ok}
use gipcy.Driver.Struct.{shms}
use gipcy.Driver.Table.Spec.{HasRoom}
use gipcy.Driver.Registry.{Registry, Realises, Safe, Returns-Safe, Usable}
use gipcy.Driver.ShmPart.{ipc_shm_open, ipc_shm_close}
use gipcy.Driver.ShmPart.Open.{ipc_shm_open-Realises}
use gipcy.Driver.ShmPart.Close.{ipc_shm_close-refused}

module _ (e : Env) (m : Memory) (d : Driver) (r : Registry)
    (is : Realises e.sem_value_max m d r) where
  stays : {X : Type 0} (x : X) → Safe e.sem_value_max (ok x (world m d))
  stays x = (r, record { memory = m; driver = d; runs = refl; realises = is })

  pub ipc_shm_open-Safe :
      (param : CreateParam)
      → length param.name < name_size
      → HasRoom shms param.name r.shm_cells
      → e.fresh ≢ null
      → m e.fresh ≡ none
      → Safe e.sem_value_max (ipc_shm_open e (some param) (world m d))
  ipc_shm_open-Safe param fits room ne free =
      Returns-Safe e.sem_value_max _ _ _ (ipc_shm_open-Realises e m d r is param fits room ne free)

  ipc_shm_close-null :
      (q : Ptr)
      → q ≡ null
      → ipc_shm_close e (some (close_param q)) (world m d) ≡ ok invalid (world m d)
  unfolding ipc_shm_close
  ipc_shm_close-null q e = rw e

  pub ipc_shm_close-Safe :
      (q : Ptr)
      → Usable q r.shm_cells
      → Safe e.sem_value_max (ipc_shm_close e (some (close_param q)) (world m d))
  ipc_shm_close-Safe q (inl z) = rw (ipc_shm_close-null q z) (stays invalid)
  ipc_shm_close-Safe q (inr (s, known)) =
      rw (ipc_shm_close-refused e m d r is q s known) (stays invalid)
