-- ===== src/Driver/SemPart/Again.antt =====
-- Two calls of `ipc_sem_create` with one name.
use gipcy.Base.{◌+◌, ◌^◌, ◌<◌, ◌≡◌, refl, ◌≢◌, none, some, length}
use gipcy.Driver.Ioctl.{Ptr, null, name_size, CreateParam}
use gipcy.Driver.Objects.{Sem, Driver}
use gipcy.Driver.Machine.{Env, Memory, world, Returns, Returns-and_then, pure, ◌>>=◌}
use gipcy.Driver.Struct.{sems}
use gipcy.Driver.Table.Cells.{named}
use gipcy.Driver.Table.Update.{open-found}
use gipcy.Driver.Table.Spec.{HasRoom, open_cells, open_handle, open_result, named-open_cells}
use gipcy.Driver.Registry.{Registry, Realises, RealisedBy}
use gipcy.Driver.SemPart.{new_sem, ipc_sem_create}
use gipcy.Driver.SemPart.Open.{first_sem, ipc_sem_create-Realises}

-- A name that is there is found, whatever `malloc` would return.
ipc_sem_create-found :
    (e : Env) (m : Memory) (d : Driver) (r : Registry) (is : Realises e.sem_value_max m d r)
    (param : CreateParam) (p : Ptr) (s : Sem)
    → named sems param.name r.sem_cells ≡ some (p, s)
    → s.owner_count + 1 < 2 ^ 32
    → Returns (λ handle w. handle ≡ p) (ipc_sem_create e (some param) (world m d))
unfolding ipc_sem_create
ipc_sem_create-found e m d r is param p s found room =
    let (run, _) =
      open-found sems e m d is.in_sems param.name (λ p. pure (new_sem e param p)) p s found room in
    rw run refl

module _ (e : Env) (m : Memory) (d : Driver) (r : Registry)
    (is : Realises e.sem_value_max m d r) where
  -- In a world that realises a registry, for a name that fits, room for an owner more in its entry (if
  -- there is one) and then for another, and a free address from `malloc` for the first call: two calls
  -- of ipc_sem_create with this name, the second with any value, flag and `malloc`, return the same
  -- handle.
  pub ipc_sem_create-again :
      (param again : CreateParam) (fresh : Ptr)
      → again.name ≡ param.name
      → length param.name < name_size
      → HasRoom sems param.name r.sem_cells
      → (open_result sems param.name (first_sem e param) r.sem_cells).owner_count + 1 < 2 ^ 32
      → e.fresh ≢ null
      → m e.fresh ≡ none
      → Returns
          (λ (h, h') w. h ≡ h')
          ((ipc_sem_create e (some param) >>= λ h.
              ipc_sem_create (record e { fresh = fresh }) (some again) >>= λ h'. pure (h, h'))
            (world m d))
  unfolding first_sem
  ipc_sem_create-again param again fresh same fits room more ne free =
      let e' = record e { fresh = fresh } in
      let cs = open_cells sems param.name e.fresh (first_sem e param) r.sem_cells in
      let h = open_handle sems param.name e.fresh r.sem_cells in
      let there =
        named-open_cells sems m param.name e.fresh (first_sem e param) r.sem_cells is.in_sems.holds
          refl in
      Returns-and_then
        (λ handle w. (handle ≡ h) × RealisedBy e.sem_value_max w (record r { sem_cells = cs })) _
        (ipc_sem_create e (some param) (world m d)) _
        (ipc_sem_create-Realises e m d r is param fits room ne free)
        (λ handle w (got, by). rw by.runs (
          Returns-and_then (λ handle' w'. handle' ≡ h) _
            (ipc_sem_create e' (some again) (world by.memory by.driver)) _
            (ipc_sem_create-found e' by.memory by.driver (record r { sem_cells = cs }) by.realises
              again h (open_result sems param.name (first_sem e param) r.sem_cells) (rw same there)
              more)
            (λ handle' w' got'. rw (got, got') refl)))
