-- ===== src/Client/ShmIpc/Lost.antt =====
-- What calls on shared memory leave in the driver and in the system.
use gipcy.Base.{
  ◌<◌, ◌≡◌, refl, ◌≢◌, ℤ, pos, negsuc, is_neg, true, false, none, some, arith, ◌==◌, if◌then◌else◌,
  length, take-eq_self,
}
use gipcy.Driver.Ioctl.{
  Ptr, null, Name, name_size, invalid, CreateParam, shm_open, shm_close, close_param,
}
use gipcy.Driver.Objects.{Shm, Driver}
use gipcy.Driver.Machine.{Env, Memory, world, ok, Returns, and_then, pure, Returns-and_then}
use gipcy.Driver.Struct.{shms}
use gipcy.Driver.Table.Cells.{at, Holds-at, at_of_named}
use gipcy.Driver.Table.Spec.{HasRoom, open_cells, open_handle, open_result, named-open_cells}
use gipcy.Driver.Registry.{Registry, Realises, RealisedBy}
use gipcy.Driver.Devctl.{error, opened, io_devctl}
use gipcy.Driver.ShmPart.{ipc_shm_open}
use gipcy.Driver.ShmPart.Open.{first_shm, ipc_shm_open-Realises}
use gipcy.Driver.ShmPart.Close.{ipc_shm_close-refused}
use gipcy.Client.Device.{is_open, ipc_driver_handle-is_open}
use gipcy.Client.Requests.{Link, open_object, send}
use gipcy.Client.Requests.Sent.{Delivers, NeverNegative, open_object-Returns}
use gipcy.Client.ShmIpc.{
  ShmObject, System, shared_memory_open, shared_memory_close, give_up, finish, obtain,
  ipc_create_shared_memory, unlink_after, general_error, ipc_delete_shared_memory,
}

-- The request of IPC_createSharedMemory.
abbrev pub shared_memory_param : Name → ℤ → CreateParam
shared_memory_param name size = record { name = name; value = size; flag = pos 0; handle = null }

module _ (l : Link) (e : Env) (fd : ℤ) (opens : is_open fd ≡ true) (good : Delivers l) where
  module _ (m : Memory) (d : Driver) (r : Registry) (is : Realises e.sem_value_max m d r) (q : Ptr)
      (s : Shm) (known : at q r.shm_cells ≡ some s) where
    io_devctl-shm_close :
        io_devctl e none (shm_close (close_param q)) (world m d) ≡ ok (error invalid) (world m d)
    unfolding io_devctl
    io_devctl-shm_close = rw (ipc_shm_close-refused e m d r is q s known)

    -- The driver refuses, and nothing changes.
    close_refused :
        shared_memory_close l e fd q (world m d) ≡ ok (l.devctl (error invalid)) (world m d)
    unfolding shared_memory_close send
    close_refused =
        rw
          (
            ipc_driver_handle-is_open fd opens,
            good.goes_on (shm_close (close_param q)),
            io_devctl-shm_close,
          )
          refl

    gives_up :
        (sys : System) (name : Name) (size : ℤ)
        → obtain sys ≡ none
        → (if q == null then pure none else finish l e fd sys (obtain sys) name size q) (world m d)
          ≡ ok none (world m d)
    unfolding finish give_up
    gives_up sys name size lost =
        let (ne, at_q) = Holds-at shms m q r.shm_cells is.in_shms.holds known in
        let not_null : (q == null) ≡ false = ground arith in rw (not_null, lost, close_refused) refl

    unlinks :
        (sys : System) (n : ℤ)
        → is_neg n ≡ false
        → unlink_after sys n
          ≡ (if is_neg sys.unlinked then (general_error, false) else (pos 0, true))
    unfolding unlink_after
    unlinks sys (pos n) h = refl
    unlinks sys (negsuc n) h = cc

    -- With an open device, a C library that delivers requests and replies and whose `devctl` never
    -- returns a negative number, and a driver that realises a registry: IPC_deleteSharedMemory of any
    -- object of the driver takes its name from the system, whatever other owners the driver counts, and
    -- returns IPC_OK or, if `shm_unlink` fails, IPC_GENERAL_ERROR; the driver, which refused to close
    -- the object, keeps its name with all its owners.
    pub ipc_delete_shared_memory-keeps :
        (sys : System) (h : ShmObject)
        → NeverNegative l
        → h.user ≡ q
        → Returns
            (λ x w.
              (x.0 ≡ (if is_neg sys.unlinked then (general_error, false) else (pos 0, true)))
              × (w ≡ world m d))
            (ipc_delete_shared_memory l e fd sys (some h) (world m d))
    unfolding ipc_delete_shared_memory
    ipc_delete_shared_memory-keeps sys h never same =
        rw (same, close_refused)
          (unlinks sys (l.devctl (error invalid)) (never (error invalid)), refl)

  module _ (m : Memory) (d : Driver) (r : Registry) (is : Realises e.sem_value_max m d r) where
    io_devctl-shm_open :
        (param : CreateParam)
        → io_devctl e none (shm_open param) (world m d)
          ≡ and_then (ipc_shm_open e (some param) (world m d)) (λ h. pure (opened h))
    unfolding io_devctl
    io_devctl-shm_open param = refl

    shared_memory_open-param :
        (name : Name) (size : ℤ)
        → length name < name_size
        → shared_memory_open l e fd name size
          ≡ open_object l e fd (shm_open (shared_memory_param name size))
    unfolding shared_memory_open
    shared_memory_open-param name size fits = rw (take-eq_self 127 name (omega arith))

    -- With an open device, a C library that delivers requests and replies, and a driver that realises a
    -- registry, for a name that fits, room for an owner and a free address in the driver: if the system gives no descriptor, IPC_createSharedMemory
    -- returns NULL, and the driver keeps the owner that was entered for it.
    pub ipc_create_shared_memory-leaks :
        (sys : System) (name : Name) (size : ℤ)
        → length name < name_size
        → HasRoom shms name r.shm_cells
        → e.fresh ≢ null
        → m e.fresh ≡ none
        → obtain sys ≡ none
        → Returns
            (λ object w.
              (object ≡ none)
              × RealisedBy e.sem_value_max w (record r {
                shm_cells =
                    open_cells shms name e.fresh
                      (first_shm e (shared_memory_param name size))
                      r.shm_cells;
              }))
            (ipc_create_shared_memory l e fd sys name size (world m d))
    unfolding ipc_create_shared_memory first_shm
    ipc_create_shared_memory-leaks sys name size fits room ne free lost =
        let param = shared_memory_param name size in
        let cs = open_cells shms name e.fresh (first_shm e param) r.shm_cells in
        let h = open_handle shms name e.fresh r.shm_cells in
        let there =
          named-open_cells shms m name e.fresh (first_shm e param) r.shm_cells is.in_shms.holds
            refl in
        let r' : Registry = record r { shm_cells = cs } in
        let entry = open_result shms name (first_shm e param) r.shm_cells in
        Returns-and_then (λ handle w. (handle ≡ h) × RealisedBy e.sem_value_max w r') _
          (shared_memory_open l e fd name size (world m d)) _
          (rw (shared_memory_open-param name size fits) (
            open_object-Returns l e fd (shm_open param) (world m d) _
              (ipc_shm_open e (some param) (world m d)) opens good (io_devctl-shm_open param)
              (ipc_shm_open-Realises e m d r is param fits room ne free)))
          (λ handle w (got, by).
            let known = at_of_named shms by.memory name cs by.realises.in_shms.holds there in
            rw (by.runs, got)
              (rw (gives_up by.memory by.driver r' by.realises h entry known sys name size lost) (
                refl,
                record {
                  memory = by.memory;
                  driver = by.driver;
                  runs = refl;
                  realises = by.realises;
                },
              )))
