-- ===== src/Driver/Instance.antt =====
-- qnx/ipcdrv/ipcdrv.cpp: the driver's life. `snprintf` of "%s%d" is a parameter by its result, the
-- bytes of the name.
pub mod Lifecycle
use gipcy.Base.{ℕ, [], Option, none, some, ◌==◌, if◌then◌else◌, take, ◌-◌}
use gipcy.Driver.Ioctl.{null, Name, name_size}
use gipcy.Driver.Objects.{Driver}
use gipcy.Driver.Machine.{Env, Cmd, pure, ◌>>=◌, get_driver, put_driver, no_driver, sem_init}
use gipcy.Driver.SemPart.{ipc_sem_close_all}
use gipcy.Driver.MutexPart.{ipc_mutex_close_all}
use gipcy.Driver.EventPart.{ipc_event_close_all}
use gipcy.Driver.ShmPart.{ipc_shm_close_all}

-- The structure that `create_instance` fills in, or none if `malloc` fails.
unfoldable pub create_instance : Env → Name → ℕ → Option Driver
unfolding sem_init
create_instance e printed index =
    if e.fresh == null
    then none
    else some (record {
      name = take (name_size - 1) printed;
      ipc_mutex = sem_init e 1;
      ipc_sem = sem_init e 1;
      usage = 0;
      index = index;
      sem_list = [];
      sem_lock = sem_init e 1;
      mutex_list = [];
      mutex_lock = sem_init e 1;
      event_list = [];
      event_lock = sem_init e 1;
      shm_list = [];
      shm_lock = sem_init e 1;
    })

-- The lists are cleared and the semaphores destroyed; the structure itself is not freed. A destroyed
-- semaphore is one of count 0.
unfoldable pub remove_instance : Env → Cmd (Unit {0})
unfolding no_driver ipc_sem_close_all ipc_mutex_close_all ipc_event_close_all ipc_shm_close_all
    get_driver put_driver
remove_instance e = do
  no_drv ← no_driver
  if no_drv then pure tt else (do
    _ ← ipc_sem_close_all e
    _ ← ipc_mutex_close_all e
    _ ← ipc_event_close_all e
    _ ← ipc_shm_close_all e
    d ← get_driver
    put_driver (record d {
      ipc_mutex = 0;
      ipc_sem = 0;
      sem_list = [];
      sem_lock = 0;
      mutex_list = [];
      mutex_lock = 0;
      event_list = [];
      event_lock = 0;
      shm_list = [];
      shm_lock = 0;
    }))
