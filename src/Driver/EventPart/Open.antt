-- ===== src/Driver/EventPart/Open.antt =====
-- `ipc_event_create` against its contract.
use gipcy.Base.{◌<◌, ◌≡◌, refl, ◌≢◌, none, some, arith, length, take-eq_self}
use gipcy.Driver.Ioctl.{null, name_size, CreateParam}
use gipcy.Driver.Objects.{Event, event_id, Driver}
use gipcy.Driver.Machine.{Env, Memory, world, Returns, pure, sem_init}
use gipcy.Driver.Struct.{events}
use gipcy.Driver.Table.{open_entry}
use gipcy.Driver.Table.Update.{guarded}
use gipcy.Driver.Table.Spec.{open_cells, open_handle, HasRoom, open-Update}
use gipcy.Driver.Registry.{Registry, Realises, RealisedBy, Returns-events}
use gipcy.Driver.EventPart.{new_event, ipc_event_create}

-- A new event with its first owner, whatever value and flag were asked for.
unfoldable pub first_event : Env → CreateParam → Event
unfolding sem_init
first_event e param = record {
  name = param.name;
  file = null;
  handle = e.fresh;
  owner_count = 1;
  lock_count = 0;
  unlock_count = 0;
  event = sem_init e 1;
  flag = 0;
  id = event_id;
}

new_event-first_event :
    (e : Env) (param : CreateParam)
    → length param.name < name_size
    → record (new_event e param e.fresh) { owner_count = 1 } ≡ first_event e param
unfolding new_event first_event
new_event-first_event e param fits = rw (take-eq_self 127 param.name (omega arith))

module _ (e : Env) (m : Memory) (d : Driver) (r : Registry)
    (is : Realises e.sem_value_max m d r) where
  -- In a world that realises a registry, for a name that fits, whose entry (if there is one) has room
  -- for an owner more, and a free address from `malloc`, ipc_event_create gives the handle of the entry with
  -- that name, with one more owner, or that of a new entry behind the others; the world then realises
  -- the registry so changed.
  pub ipc_event_create-Realises :
      (param : CreateParam)
      → length param.name < name_size
      → HasRoom events param.name r.event_cells
      → e.fresh ≢ null
      → m e.fresh ≡ none
      → Returns
          (λ handle w.
            (handle ≡ open_handle events param.name e.fresh r.event_cells)
            × RealisedBy e.sem_value_max w (record r {
              event_cells =
                  open_cells events param.name e.fresh (first_event e param) r.event_cells;
            }))
          (ipc_event_create e (some param) (world m d))
  unfolding ipc_event_create
  ipc_event_create-Realises param fits room ne free =
      let a = new_event e param e.fresh in
      let named_so : a.name ≡ param.name = take-eq_self 127 param.name (omega arith) in
      let cs = open_cells events param.name e.fresh (record a { owner_count = 1 }) r.event_cells in
      let run =
        guarded events e (open_entry events e param.name (λ p. pure (new_event e param p)))
          (world m d) in
      rw (← new_event-first_event e param fits) (
        Returns-events is (open_handle events param.name e.fresh r.event_cells) cs run (
          open-Update events e m d is.in_events param.name (λ p. pure (new_event e param p)) a room
            ne free (λ d'. refl) refl named_so
            (record {
              handle = refl;
              magic = refl;
              owned = omega arith;
              bounded = omega arith;
              fits = rw named_so fits;
            })))
