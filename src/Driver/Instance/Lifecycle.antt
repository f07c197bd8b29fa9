-- ===== src/Driver/Instance/Lifecycle.antt =====
-- The life of the driver: a new instance realises the empty registry.
use gipcy.Base.{ℕ, ◌<◌, ◌≡◌, refl, ◌≢◌, [], some, arith, ◌==◌, false, take}
use gipcy.Driver.Ioctl.{null, Name}
use gipcy.Driver.Objects.{Driver}
use gipcy.Driver.Machine.{Env, Memory, sem_init}
use gipcy.Driver.Registry.{Registry, Realises}
use gipcy.Driver.Instance.{create_instance}

abbrev pub empty : Registry
empty = record { sem_cells = []; mutex_cells = []; event_cells = []; shm_cells = [] }

-- If `malloc` gives memory and semaphores can hold 1, create_instance makes a driver that realises the
-- empty registry, whatever else is in memory.
pub create_instance-Realises :
    (e : Env) (printed : Name) (index : ℕ) (m : Memory)
    → e.fresh ≢ null
    → 0 < e.sem_value_max
    → (d : Driver) × (create_instance e printed index ≡ some d) × Realises e.sem_value_max m d empty
unfolding create_instance sem_init
create_instance-Realises e printed index m ne positive =
    let got : (e.fresh == null) ≡ false = ground arith in
    let d : Driver = record {
      name = take 127 printed;
      ipc_mutex = sem_init e 1;
      ipc_sem = sem_init e 1;
      usage = 0;
      index = index;
      sem_list = [];
      sem_lock = sem_init e 1;
      mutex_list = [];
      mutex_lock = sem_init e 1;
      event_list = [];
      event_lock = sem_init e 1;
      shm_list = [];
      shm_lock = sem_init e 1;
    } in
    (
      d,
      rw got,
      record {
        in_sems = record {
          listed = refl;
          holds = tt;
          sound = tt;
          unlocked = ground arith;
          in_range = ground arith;
        };
        in_mutexes = record {
          listed = refl;
          holds = tt;
          sound = tt;
          unlocked = ground arith;
          in_range = ground arith;
        };
        in_events = record {
          listed = refl;
          holds = tt;
          sound = tt;
          unlocked = ground arith;
          in_range = ground arith;
        };
        in_shms = record {
          listed = refl;
          holds = tt;
          sound = tt;
          unlocked = ground arith;
          in_range = ground arith;
        };
      },
    )
