-- ===== src/Driver/SemPart/Open.antt =====
-- `ipc_sem_create` against its contract.
use gipcy.Base.{◌<◌, ◌≡◌, refl, ◌≢◌, none, some, arith, to_unsigned, length, take-eq_self}
use gipcy.Driver.Ioctl.{null, name_size, CreateParam}
use gipcy.Driver.Objects.{Sem, sem_id, Driver}
use gipcy.Driver.Machine.{Env, Memory, world, Returns, pure, sem_init}
use gipcy.Driver.Struct.{sems}
use gipcy.Driver.Table.{open_entry}
use gipcy.Driver.Table.Update.{guarded}
use gipcy.Driver.Table.Spec.{open_cells, open_handle, HasRoom, open-Update}
use gipcy.Driver.Registry.{Registry, Realises, RealisedBy, Returns-sems}
use gipcy.Driver.SemPart.{new_sem, ipc_sem_create}

-- A new semaphore with its first owner, as the contract has it.
unfoldable pub first_sem : Env → CreateParam → Sem
unfolding sem_init
first_sem e param = record {
  name = param.name;
  file = null;
  handle = e.fresh;
  owner_count = 1;
  lock_count = 0;
  unlock_count = 0;
  sem = sem_init e (to_unsigned param.value);
  id = sem_id;
}

new_sem-first_sem :
    (e : Env) (param : CreateParam)
    → length param.name < name_size
    → record (new_sem e param e.fresh) { owner_count = 1 } ≡ first_sem e param
unfolding new_sem first_sem
new_sem-first_sem e param fits = rw (take-eq_self 127 param.name (omega arith))

module _ (e : Env) (m : Memory) (d : Driver) (r : Registry)
    (is : Realises e.sem_value_max m d r) where
  -- In a world that realises a registry, for a name that fits, whose entry (if there is one) has room
  -- for an owner more, and a free address from `malloc`, ipc_sem_create gives the handle of the entry with
  -- that name, with one more owner, or that of a new entry behind the others; the world then realises
  -- the registry so changed.
  pub ipc_sem_create-Realises :
      (param : CreateParam)
      → length param.name < name_size
      → HasRoom sems param.name r.sem_cells
      → e.fresh ≢ null
      → m e.fresh ≡ none
      → Returns
          (λ handle w.
            (handle ≡ open_handle sems param.name e.fresh r.sem_cells)
            × RealisedBy e.sem_value_max w (record r {
              sem_cells = open_cells sems param.name e.fresh (first_sem e param) r.sem_cells;
            }))
          (ipc_sem_create e (some param) (world m d))
  unfolding ipc_sem_create
  ipc_sem_create-Realises param fits room ne free =
      let a = new_sem e param e.fresh in
      let named_so : a.name ≡ param.name = take-eq_self 127 param.name (omega arith) in
      let cs = open_cells sems param.name e.fresh (record a { owner_count = 1 }) r.sem_cells in
      let run =
        guarded sems e (open_entry sems e param.name (λ p. pure (new_sem e param p))) (world m d) in
      rw (← new_sem-first_sem e param fits) (
        Returns-sems is (open_handle sems param.name e.fresh r.sem_cells) cs run (
          open-Update sems e m d is.in_sems param.name (λ p. pure (new_sem e param p)) a room ne
            free (λ d'. refl) refl named_so
            (record {
              handle = refl;
              magic = refl;
              owned = omega arith;
              bounded = omega arith;
              fits = rw named_so fits;
            })))
