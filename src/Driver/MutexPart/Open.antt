-- ===== src/Driver/MutexPart/Open.antt =====
-- `ipc_mutex_create` against its contract.
use gipcy.Base.{
  ◌<◌, ◌≡◌, refl, inl, inr, ◌≢◌, ◌==◌, if◌then◌else◌, Bool-cases, none, some, arith, to_unsigned,
  length, take, take-eq_self,
}
use gipcy.Driver.Ioctl.{null, name_size, CreateParam}
use gipcy.Driver.Objects.{Mutex, mutex_id, Driver}
use gipcy.Driver.Machine.{Env, Memory, world, ok, Returns, sem_init}
use gipcy.Driver.Struct.{mutexes}
use gipcy.Driver.Table.{open_entry}
use gipcy.Driver.Table.Update.{guarded}
use gipcy.Driver.Table.Spec.{open_cells, open_handle, HasRoom, open-Update}
use gipcy.Driver.Registry.{Registry, Realises, RealisedBy, Returns-mutexes}
use gipcy.Driver.MutexPart.{new_mutex, ipc_mutex_create}

-- A new mutex with its first owner: taken already if the value asked for is 0.
unfoldable pub first_mutex : Env → CreateParam → Mutex
unfolding sem_init
first_mutex e param = record {
  name = param.name;
  file = null;
  handle = e.fresh;
  owner_count = 1;
  lock_count = 0;
  unlock_count = 0;
  mutex = if to_unsigned param.value == 0 then 0 else sem_init e (to_unsigned param.value);
  id = mutex_id;
}

-- The structure that `new_mutex` makes, when a `sem_init` to 1 is possible.
zeroed : Env → CreateParam → Mutex
zeroed e param = record (first_mutex e param) { name = take 127 param.name; owner_count = 0 }

new_mutex-zeroed :
    (e : Env) (param : CreateParam) (m : Memory) (d : Driver)
    → 0 < e.sem_value_max
    → new_mutex e param e.fresh (world m d) ≡ ok (zeroed e param) (world m d)
unfolding new_mutex first_mutex zeroed
new_mutex-zeroed e param m d pos_max =
    let one : sem_init e 1 ≡ 1 = ground arith in
    elim (Bool-cases (to_unsigned param.value == 0)) [ inl z ↦ rw (one, z) | inr z ↦ rw z ]

zeroed-first_mutex :
    (e : Env) (param : CreateParam)
    → length param.name < name_size
    → record (zeroed e param) { owner_count = 1 } ≡ first_mutex e param
unfolding first_mutex zeroed
zeroed-first_mutex e param fits = rw (take-eq_self 127 param.name (omega arith))

module _ (e : Env) (m : Memory) (d : Driver) (r : Registry)
    (is : Realises e.sem_value_max m d r) where
  -- In a world that realises a registry, for a name that fits, whose entry (if there is one) has room
  -- for an owner more, and a free address from `malloc`, ipc_mutex_create gives the handle of the entry with
  -- that name, with one more owner, or that of a new entry behind the others; the world then realises
  -- the registry so changed.
  pub ipc_mutex_create-Realises :
      (param : CreateParam)
      → length param.name < name_size
      → HasRoom mutexes param.name r.mutex_cells
      → e.fresh ≢ null
      → m e.fresh ≡ none
      → Returns
          (λ handle w.
            (handle ≡ open_handle mutexes param.name e.fresh r.mutex_cells)
            × RealisedBy e.sem_value_max w (record r {
              mutex_cells =
                  open_cells mutexes param.name e.fresh (first_mutex e param) r.mutex_cells;
            }))
          (ipc_mutex_create e (some param) (world m d))
  unfolding ipc_mutex_create zeroed first_mutex
  ipc_mutex_create-Realises param fits room ne free =
      let a = zeroed e param in
      let named_so : a.name ≡ param.name = take-eq_self 127 param.name (omega arith) in
      let cs = open_cells mutexes param.name e.fresh (record a { owner_count = 1 }) r.mutex_cells in
      let run =
        guarded mutexes e (open_entry mutexes e param.name (new_mutex e param)) (world m d) in
      rw (← zeroed-first_mutex e param fits) (
        Returns-mutexes is (open_handle mutexes param.name e.fresh r.mutex_cells) cs run (
          open-Update mutexes e m d is.in_mutexes param.name (new_mutex e param) a room ne free
            (λ d'.
              new_mutex-zeroed e param m d'
                (omega (arith, is.in_mutexes.unlocked, is.in_mutexes.in_range)))
            refl named_so
            (record {
              handle = refl;
              magic = refl;
              owned = omega arith;
              bounded = omega arith;
              fits = rw named_so fits;
            })))
