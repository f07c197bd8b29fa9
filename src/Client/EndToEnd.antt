-- ===== src/Client/EndToEnd.antt =====
-- Calls of the client, through `io_devctl`, against the registry of the driver.
use gipcy.Base.{
  ℕ, ◌<◌, ◌≡◌, refl, ◌∙◌, ◌≢◌, ◌++◌, [], ◌∷◌, ℤ, pos, neg, Bool, true, none, some, arith,
  if◌then◌else◌, length, take-eq_self,
}
use gipcy.Driver.Ioctl.{
  Ptr, null, Name, name_size, invalid, CreateParam, sem_open, sem_lock, event_close, mutex_open,
  lock_param, close_param,
}
use gipcy.Driver.Objects.{Sem, Event, Driver}
use gipcy.Driver.Machine.{Env, Memory, world, ok, Returns, and_then, pure}
use gipcy.Driver.Struct.{sems, mutexes}
use gipcy.Driver.Table.Cells.{at}
use gipcy.Driver.Table.Spec.{HasRoom, open_cells, open_handle}
use gipcy.Driver.Registry.{Registry, Realises, RealisedBy}
use gipcy.Driver.Devctl.{reply, error, opened, io_devctl}
use gipcy.Driver.SemPart.{ipc_sem_create}
use gipcy.Driver.SemPart.Open.{first_sem, ipc_sem_create-Realises}
use gipcy.Driver.SemPart.Lock.{ipc_sem_lock-timeout}
use gipcy.Driver.MutexPart.{ipc_mutex_create}
use gipcy.Driver.MutexPart.Open.{first_mutex, ipc_mutex_create-Realises}
use gipcy.Driver.EventPart.Close.{ipc_event_close-refused}
use gipcy.Client.Device.{is_open}
use gipcy.Client.Requests.{Link, open_object}
use gipcy.Client.Requests.Sent.{Delivers, NeverNegative, call_object-sent, open_object-Returns}
use gipcy.Client.SemIpc.{ipc_create_semaphore, ipc_lock_semaphore}
use gipcy.Client.MutexIpc.{ipc_create_mutex}
use gipcy.Client.EventIpc.{ipc_delete_event}

-- The request that ipc_create_semaphore sends, its name not cut off.
abbrev pub semaphore_param : Name → CreateParam
semaphore_param name = record { name = name ++ 10 ∷ []; value = pos 1; flag = pos 0; handle = null }

abbrev pub mutex_param : Name → Bool → CreateParam
mutex_param name captured = record {
  name = name;
  value = if captured then pos 0 else pos 1;
  flag = pos 0;
  handle = null;
}

module _ (l : Link) (e : Env) (fd : ℤ) (opens : is_open fd ≡ true) (good : Delivers l) (m : Memory)
    (d : Driver) (r : Registry) (is : Realises e.sem_value_max m d r) where
  create_semaphore-param :
      (name : Name) (value : ℤ)
      → length (name ++ 10 ∷ []) < name_size
      → ipc_create_semaphore l e fd name value
        ≡ open_object l e fd (sem_open (semaphore_param name))
  unfolding ipc_create_semaphore
  create_semaphore-param name value fits = rw (take-eq_self 127 (name ++ 10 ∷ []) (omega arith))

  io_devctl-sem_open :
      (param : CreateParam)
      → io_devctl e none (sem_open param) (world m d)
        ≡ and_then (ipc_sem_create e (some param) (world m d)) (λ h. pure (opened h))
  unfolding io_devctl
  io_devctl-sem_open param = refl

  -- With an open device, a C library that delivers requests and replies, and a driver that realises a
  -- registry, for a name that fits with its line feed, room for an owner and a free address:
  -- ipc_create_semaphore returns the handle of the semaphore whose name is `name` and a line feed, and
  -- a new one is initialised with 1, whatever `value` the caller gives.
  pub ipc_create_semaphore-Realises :
      (name : Name) (value : ℤ)
      → length (name ++ 10 ∷ []) < name_size
      → HasRoom sems (name ++ 10 ∷ []) r.sem_cells
      → e.fresh ≢ null
      → m e.fresh ≡ none
      → Returns
          (λ handle w.
            (handle ≡ open_handle sems (name ++ 10 ∷ []) e.fresh r.sem_cells)
            × RealisedBy e.sem_value_max w (record r {
              sem_cells =
                  open_cells sems
                    (name ++ 10 ∷ [])
                    e.fresh
                    (first_sem e (semaphore_param name))
                    r.sem_cells;
            }))
          (ipc_create_semaphore l e fd name value (world m d))
  ipc_create_semaphore-Realises name value fits room ne free =
      rw (create_semaphore-param name value fits) (
        open_object-Returns l e fd (sem_open (semaphore_param name)) (world m d) _
          (ipc_sem_create e (some (semaphore_param name)) (world m d)) opens good
          (io_devctl-sem_open (semaphore_param name))
          (ipc_sem_create-Realises e m d r is (semaphore_param name) fits room ne free))

  create_mutex-param :
      (name : Name) (captured : Bool)
      → length name < name_size
      → ipc_create_mutex l e fd name captured
        ≡ open_object l e fd (mutex_open (mutex_param name captured))
  unfolding ipc_create_mutex
  create_mutex-param name captured fits = rw (take-eq_self 127 name (omega arith))

  io_devctl-mutex_open :
      (param : CreateParam)
      → io_devctl e none (mutex_open param) (world m d)
        ≡ and_then (ipc_mutex_create e (some param) (world m d)) (λ h. pure (opened h))
  unfolding io_devctl
  io_devctl-mutex_open param = refl

  -- With an open device, a C library that delivers requests and replies, and a driver that realises a
  -- registry, for a name that fits, room for an owner and a free address: ipc_create_mutex returns the
  -- handle of the mutex with that name, and a new one is taken if it is created captured, else free.
  pub ipc_create_mutex-Realises :
      (name : Name) (captured : Bool)
      → length name < name_size
      → HasRoom mutexes name r.mutex_cells
      → e.fresh ≢ null
      → m e.fresh ≡ none
      → Returns
          (λ handle w.
            (handle ≡ open_handle mutexes name e.fresh r.mutex_cells)
            × RealisedBy e.sem_value_max w (record r {
              mutex_cells =
                  open_cells mutexes name e.fresh
                    (first_mutex e (mutex_param name captured))
                    r.mutex_cells;
            }))
          (ipc_create_mutex l e fd name captured (world m d))
  ipc_create_mutex-Realises name captured fits room ne free =
      rw (create_mutex-param name captured fits) (
        open_object-Returns l e fd (mutex_open (mutex_param name captured)) (world m d) _
          (ipc_mutex_create e (some (mutex_param name captured)) (world m d)) opens good
          (io_devctl-mutex_open (mutex_param name captured))
          (ipc_mutex_create-Realises e m d r is (mutex_param name captured) fits room ne free))

  io_devctl-timeout :
      (q : Ptr) (s : Sem) (ms : ℕ)
      → at q r.sem_cells ≡ some s
      → s.sem ≡ 0
      → io_devctl e none (sem_lock (lock_param q (pos ms))) (world m d)
        ≡ ok (reply none) (world m d)
  unfolding io_devctl
  io_devctl-timeout q s ms known empty = rw (ipc_sem_lock-timeout e m d r is q s known ms empty)

  -- With an open device, a C library that delivers requests and replies, and a driver that realises a
  -- registry: ipc_lock_semaphore with a timeout of 0 or more, of a semaphore whose count is 0, returns
  -- IPC_OK (0) without having taken the semaphore: the driver's world is unchanged.
  pub ipc_lock_semaphore-timeout :
      (q : Ptr) (s : Sem) (ms : ℕ)
      → at q r.sem_cells ≡ some s
      → s.sem ≡ 0
      → ipc_lock_semaphore l e fd q (pos ms) (world m d) ≡ ok (pos 0) (world m d)
  unfolding ipc_lock_semaphore
  ipc_lock_semaphore-timeout q s ms known empty =
      call_object-sent l e fd (sem_lock (lock_param q (pos ms))) (world m d) opens good (λ res. res)
        (reply none) (world m d) (io_devctl-timeout q s ms known empty)
      ∙ rw (good.succeeds none)

  io_devctl-event_close :
      (q : Ptr) (s : Event)
      → at q r.event_cells ≡ some s
      → io_devctl e none (event_close (close_param q)) (world m d) ≡ ok (error invalid) (world m d)
  unfolding io_devctl
  io_devctl-event_close q s known = rw (ipc_event_close-refused e m d r is q s known)

  -- With an open device, a C library that delivers requests and replies and whose `devctl` never returns a
  -- negative number, and a driver that realises a registry: ipc_delete_event of any event returns IPC_OK
  -- (0), and the driver, which refused the request, keeps the event.
  pub ipc_delete_event-keeps :
      NeverNegative l
      → (q : Ptr) (s : Event) → at q r.event_cells ≡ some s
      → ipc_delete_event l e fd q (world m d) ≡ ok (pos 0) (world m d)
  unfolding ipc_delete_event
  ipc_delete_event-keeps never q s known =
      call_object-sent l e fd (event_close (close_param q)) (world m d) opens good (λ res. neg 1)
        (error invalid) (world m d) (io_devctl-event_close q s known)
      ∙ rw (never (error invalid))
