-- ===== src/Driver/ShmPart/Open.antt =====
-- `ipc_shm_open` against its contract.
use gipcy.Base.{◌<◌, ◌≡◌, refl, ◌≢◌, none, some, arith, length, take-eq_self}
use gipcy.Driver.Ioctl.{null, name_size, CreateParam}
use gipcy.Driver.Objects.{Shm, shm_id, Driver}
use gipcy.Driver.Machine.{Env, Memory, world, Returns, pure, sem_init}
use gipcy.Driver.Struct.{shms}
use gipcy.Driver.Table.{open_entry}
use gipcy.Driver.Table.Update.{guarded}
use gipcy.Driver.Table.Spec.{open_cells, open_handle, HasRoom, open-Update}
use gipcy.Driver.Registry.{Registry, Realises, RealisedBy, Returns-shms}
use gipcy.Driver.ShmPart.{new_shm, ipc_shm_open}

-- A new shared memory with its first owner.
unfoldable pub first_shm : Env → CreateParam → Shm
unfolding sem_init
first_shm e param = record {
  name = param.name;
  file = null;
  handle = e.fresh;
  owner_count = 1;
  id = shm_id;
}

new_shm-first_shm :
    (e : Env) (param : CreateParam)
    → length param.name < name_size
    → record (new_shm param e.fresh) { owner_count = 1 } ≡ first_shm e param
unfolding new_shm first_shm
new_shm-first_shm e param fits = rw (take-eq_self 127 param.name (omega arith))

module _ (e : Env) (m : Memory) (d : Driver) (r : Registry)
    (is : Realises e.sem_value_max m d r) where
  -- In a world that realises a registry, for a name that fits, whose entry (if there is one) has room
  -- for an owner more, and a free address from `malloc`, ipc_shm_open gives the handle of the entry with
  -- that name, with one more owner, or that of a new entry behind the others; the world then realises
  -- the registry so changed.
  pub ipc_shm_open-Realises :
      (param : CreateParam)
      → length param.name < name_size
      → HasRoom shms param.name r.shm_cells
      → e.fresh ≢ null
      → m e.fresh ≡ none
      → Returns
          (λ handle w.
            (handle ≡ open_handle shms param.name e.fresh r.shm_cells)
            × RealisedBy e.sem_value_max w (record r {
              shm_cells = open_cells shms param.name e.fresh (first_shm e param) r.shm_cells;
            }))
          (ipc_shm_open e (some param) (world m d))
  unfolding ipc_shm_open
  ipc_shm_open-Realises param fits room ne free =
      let a = new_shm param e.fresh in
      let named_so : a.name ≡ param.name = take-eq_self 127 param.name (omega arith) in
      let cs = open_cells shms param.name e.fresh (record a { owner_count = 1 }) r.shm_cells in
      let run =
        guarded shms e (open_entry shms e param.name (λ p. pure (new_shm param p))) (world m d) in
      rw (← new_shm-first_shm e param fits) (
        Returns-shms is (open_handle shms param.name e.fresh r.shm_cells) cs run (
          open-Update shms e m d is.in_shms param.name (λ p. pure (new_shm param p)) a room ne free
            (λ d'. refl) refl named_so
            (record {
              handle = refl;
              magic = refl;
              owned = omega arith;
              bounded = omega arith;
              fits = rw named_so fits;
            })))
