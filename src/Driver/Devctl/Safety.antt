-- ===== src/Driver/Devctl/Safety.antt =====
-- Safety of the dispatcher: with valid handles no request makes it follow a bad pointer, and after
-- every answer the world realises some registry.
use gipcy.Base.{◌<◌, ◌≡◌, ◌≢◌, refl, none, some, List, length}
use gipcy.Driver.Ioctl.{
  Ptr, null, name_size, CreateParam, Request, sem_open, sem_lock, sem_unlock, sem_close, mutex_open,
  mutex_lock, mutex_unlock, mutex_close, event_open, event_lock, event_unlock, event_reset,
  event_close, shm_open, shm_close, unknown,
}
use gipcy.Driver.Objects.{Driver}
use gipcy.Driver.Machine.{Env, Memory, world}
use gipcy.Driver.Struct.{Struct, sems, mutexes, events, shms}
use gipcy.Driver.Table.Spec.{HasRoom}
use gipcy.Driver.Registry.{Registry, Realises, Safe, Safe-pure, Usable}
use gipcy.Driver.SemPart.{ipc_sem_create, ipc_sem_close, ipc_sem_lock, ipc_sem_unlock}
use gipcy.Driver.SemPart.Safety.{
  ipc_sem_create-Safe, ipc_sem_close-Safe, ipc_sem_lock-Safe, ipc_sem_unlock-Safe,
}
use gipcy.Driver.MutexPart.{ipc_mutex_create, ipc_mutex_close, ipc_mutex_lock, ipc_mutex_unlock}
use gipcy.Driver.MutexPart.Safety.{
  ipc_mutex_create-Safe, ipc_mutex_close-Safe, ipc_mutex_lock-Safe, ipc_mutex_unlock-Safe,
}
use gipcy.Driver.EventPart.{
  ipc_event_create, ipc_event_close, ipc_event_lock, ipc_event_unlock, ipc_event_reset,
}
use gipcy.Driver.EventPart.Safety.{
  ipc_event_create-Safe, ipc_event_close-Safe, ipc_event_lock-Safe, ipc_event_unlock-Safe,
  ipc_event_reset-Safe,
}
use gipcy.Driver.ShmPart.{ipc_shm_open, ipc_shm_close}
use gipcy.Driver.ShmPart.Safety.{ipc_shm_open-Safe, ipc_shm_close-Safe}
use gipcy.Driver.Devctl.{opened, answered, io_devctl}

-- What makes an opening request valid: a name that fits, room for an owner in its entry, and memory.
pub record Openable {A : Type 0} (S : Struct A) (e : Env) (m : Memory) (cs : List (Ptr × A))
    (param : CreateParam) : Type 0 where
  pub fits : length param.name < name_size
  pub room : HasRoom S param.name cs
  pub memory : e.fresh ≢ null
  pub free : m e.fresh ≡ none

-- A request that a well-behaved client sends: handles are NULL or those of entries of the right table.
abbrev pub Valid : Env → Memory → Registry → Request → Type 0
Valid e m r (sem_open param) = Openable sems e m r.sem_cells param
Valid e m r (sem_lock param) = Usable param.handle r.sem_cells
Valid e m r (sem_unlock param) = Usable param.handle r.sem_cells
Valid e m r (sem_close param) = Usable param.handle r.sem_cells
Valid e m r (mutex_open param) = Openable mutexes e m r.mutex_cells param
Valid e m r (mutex_lock param) = Usable param.handle r.mutex_cells
Valid e m r (mutex_unlock param) = Usable param.handle r.mutex_cells
Valid e m r (mutex_close param) = Usable param.handle r.mutex_cells
Valid e m r (event_open param) = Openable events e m r.event_cells param
Valid e m r (event_lock param) = Usable param.handle r.event_cells
Valid e m r (event_unlock param) = Usable param.handle r.event_cells
Valid e m r (event_close param) = Usable param.handle r.event_cells
Valid e m r (event_reset param) = Usable param.handle r.event_cells
Valid e m r (shm_open param) = Openable shms e m r.shm_cells param
Valid e m r (shm_close param) = Usable param.handle r.shm_cells
Valid e m r unknown = Unit {0}

module _ (e : Env) (m : Memory) (d : Driver) (r : Registry)
    (is : Realises e.sem_value_max m d r) where
  -- In a world that realises a registry, io_devctl answers every valid request without following a bad
  -- pointer, unless it waits for ever: an answer leaves a world that realises some registry.
  pub io_devctl-Safe :
      (request : Request)
      → Valid e m r request
      → Safe e.sem_value_max (io_devctl e none request (world m d))
  unfolding io_devctl
  io_devctl-Safe (sem_open param) v =
      Safe-pure e.sem_value_max (ipc_sem_create e (some param) (world m d)) opened
        (ipc_sem_create-Safe e m d r is param v.fits v.room v.memory v.free)
  io_devctl-Safe (sem_lock param) v =
      Safe-pure e.sem_value_max (ipc_sem_lock e (some param) (world m d)) answered
        (ipc_sem_lock-Safe e m d r is param.handle param.timeout v)
  io_devctl-Safe (sem_unlock param) v =
      Safe-pure e.sem_value_max (ipc_sem_unlock e (some param) (world m d)) answered
        (ipc_sem_unlock-Safe e m d r is param.handle v)
  io_devctl-Safe (sem_close param) v =
      Safe-pure e.sem_value_max (ipc_sem_close e (some param) (world m d)) answered
        (ipc_sem_close-Safe e m d r is param.handle v)
  io_devctl-Safe (mutex_open param) v =
      Safe-pure e.sem_value_max (ipc_mutex_create e (some param) (world m d)) opened
        (ipc_mutex_create-Safe e m d r is param v.fits v.room v.memory v.free)
  io_devctl-Safe (mutex_lock param) v =
      Safe-pure e.sem_value_max (ipc_mutex_lock e (some param) (world m d)) answered
        (ipc_mutex_lock-Safe e m d r is param.handle param.timeout v)
  io_devctl-Safe (mutex_unlock param) v =
      Safe-pure e.sem_value_max (ipc_mutex_unlock e (some param) (world m d)) answered
        (ipc_mutex_unlock-Safe e m d r is param.handle v)
  io_devctl-Safe (mutex_close param) v =
      Safe-pure e.sem_value_max (ipc_mutex_close e (some param) (world m d)) answered
        (ipc_mutex_close-Safe e m d r is param.handle v)
  io_devctl-Safe (event_open param) v =
      Safe-pure e.sem_value_max (ipc_event_create e (some param) (world m d)) opened
        (ipc_event_create-Safe e m d r is param v.fits v.room v.memory v.free)
  io_devctl-Safe (event_lock param) v =
      Safe-pure e.sem_value_max (ipc_event_lock e (some param) (world m d)) answered
        (ipc_event_lock-Safe e m d r is param.handle param.timeout v)
  io_devctl-Safe (event_unlock param) v =
      Safe-pure e.sem_value_max (ipc_event_unlock e (some param) (world m d)) answered
        (ipc_event_unlock-Safe e m d r is param.handle v)
  io_devctl-Safe (event_close param) v =
      Safe-pure e.sem_value_max (ipc_event_close e (some param) (world m d)) answered
        (ipc_event_close-Safe e m d r is param.handle v)
  io_devctl-Safe (event_reset param) v =
      Safe-pure e.sem_value_max (ipc_event_reset e (some param) (world m d)) answered
        (ipc_event_reset-Safe e m d r is param.handle v)
  io_devctl-Safe (shm_open param) v =
      Safe-pure e.sem_value_max (ipc_shm_open e (some param) (world m d)) opened
        (ipc_shm_open-Safe e m d r is param v.fits v.room v.memory v.free)
  io_devctl-Safe (shm_close param) v =
      Safe-pure e.sem_value_max (ipc_shm_close e (some param) (world m d)) answered
        (ipc_shm_close-Safe e m d r is param.handle v)
  io_devctl-Safe unknown v = (r, record { memory = m; driver = d; runs = refl; realises = is })
