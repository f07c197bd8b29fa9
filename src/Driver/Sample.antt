-- ===== src/Driver/Sample.antt =====
-- A driver with six entries, for concrete runs.
use gipcy.Base.{false, ◌%◌, ◌^◌, refl, [], ◌∷◌, none, some, arith}
use gipcy.Driver.Objects.{
  Sem, a_sem, sem_id, Mutex, a_mutex, mutex_id, Event, a_event, event_id, Shm, a_shm, shm_id,
  Driver,
}
use gipcy.Driver.Machine.{Env, Memory, write}
use gipcy.Driver.Struct.{sems, mutexes, events, shms}
use gipcy.Driver.Table.Update.{InTable}
use gipcy.Base.Tests.{same_text}
use gipcy.Driver.Registry.{Registry, Realises}

abbrev pub first_sem_entry : Sem
first_sem_entry = record {
  name = 97 ∷ [];
  file = 0;
  handle = 16;
  owner_count = 1;
  lock_count = 0;
  unlock_count = 0;
  sem = 1;
  id = sem_id;
}

abbrev pub taken_sem : Sem
taken_sem = record first_sem_entry {
  name = 98 ∷ [];
  handle = 32;
  owner_count = 2;
  lock_count = 1;
  sem = 0;
}

abbrev pub a_free_mutex : Mutex
a_free_mutex = record {
  name = 97 ∷ [];
  file = 0;
  handle = 48;
  owner_count = 1;
  lock_count = 0;
  unlock_count = 0;
  mutex = 1;
  id = mutex_id;
}

abbrev pub taken_mutex : Mutex
taken_mutex = record a_free_mutex { name = 98 ∷ []; handle = 52; lock_count = 1; mutex = 0 }

abbrev pub set_event : Event
set_event = record {
  name = 97 ∷ [];
  file = 0;
  handle = 64;
  owner_count = 1;
  lock_count = 0;
  unlock_count = 0;
  event = 1;
  flag = 0;
  id = event_id;
}

abbrev pub segment : Shm
segment = record { name = 97 ∷ []; file = 0; handle = 80; owner_count = 1; id = shm_id }

abbrev pub env : Env
env = record {
  fresh = 96;
  now = record { sec = 100; nsec = 600_000_000 };
  sem_value_max = 32767;
  wait_errno = λ t. 260;
  interrupted = false;
  time_bits = 32;
  overflowed = λ n. n % 2 ^ 32;
}

abbrev pub memory : Memory
unfolding write
memory =
    write
      (write
        (write
          (write
            (write (write (λ p. none) 16 (some (a_sem first_sem_entry))) 32
              (some (a_sem taken_sem)))
            48 (some (a_mutex a_free_mutex)))
          52 (some (a_mutex taken_mutex)))
        64 (some (a_event set_event)))
      80 (some (a_shm segment))

abbrev pub driver : Driver
driver = record {
  name = 105 ∷ [];
  ipc_mutex = 1;
  ipc_sem = 1;
  usage = 0;
  index = 0;
  sem_list = 16 ∷ 32 ∷ [];
  sem_lock = 1;
  mutex_list = 48 ∷ 52 ∷ [];
  mutex_lock = 1;
  event_list = 64 ∷ [];
  event_lock = 1;
  shm_list = 80 ∷ [];
  shm_lock = 1;
}

abbrev pub registry : Registry
registry = record {
  sem_cells = (16, first_sem_entry) ∷ (32, taken_sem) ∷ [];
  mutex_cells = (48, a_free_mutex) ∷ (52, taken_mutex) ∷ [];
  event_cells = (64, set_event) ∷ [];
  shm_cells = (80, segment) ∷ [];
}

sems-InTable : InTable sems 32767 memory driver registry.sem_cells
unfolding write same_text
sems-InTable = record {
  listed = refl;
  holds = ((λ z. ground arith), refl, refl, ((λ z. ground arith), refl, refl, tt));
  sound = (
    record {
      handle = refl;
      magic = refl;
      owned = omega arith;
      bounded = omega arith;
      fits = omega arith;
    },
    refl,
    (
      record {
        handle = refl;
        magic = refl;
        owned = omega arith;
        bounded = omega arith;
        fits = omega arith;
      },
      refl,
      tt,
    ),
  );
  unlocked = omega arith;
  in_range = omega arith;
}

mutexes-InTable : InTable mutexes 32767 memory driver registry.mutex_cells
unfolding write same_text
mutexes-InTable = record {
  listed = refl;
  holds = ((λ z. ground arith), refl, refl, ((λ z. ground arith), refl, refl, tt));
  sound = (
    record {
      handle = refl;
      magic = refl;
      owned = omega arith;
      bounded = omega arith;
      fits = omega arith;
    },
    refl,
    (
      record {
        handle = refl;
        magic = refl;
        owned = omega arith;
        bounded = omega arith;
        fits = omega arith;
      },
      refl,
      tt,
    ),
  );
  unlocked = omega arith;
  in_range = omega arith;
}

events-InTable : InTable events 32767 memory driver registry.event_cells
unfolding write same_text
events-InTable = record {
  listed = refl;
  holds = ((λ z. ground arith), refl, refl, tt);
  sound = (
    record {
      handle = refl;
      magic = refl;
      owned = omega arith;
      bounded = omega arith;
      fits = omega arith;
    },
    refl,
    tt,
  );
  unlocked = omega arith;
  in_range = omega arith;
}

shms-InTable : InTable shms 32767 memory driver registry.shm_cells
unfolding write same_text
shms-InTable = record {
  listed = refl;
  holds = ((λ z. ground arith), refl, refl, tt);
  sound = (
    record {
      handle = refl;
      magic = refl;
      owned = omega arith;
      bounded = omega arith;
      fits = omega arith;
    },
    refl,
    tt,
  );
  unlocked = omega arith;
  in_range = omega arith;
}

pub registry-Realises : Realises 32767 memory driver registry
registry-Realises = record {
  in_sems = sems-InTable;
  in_mutexes = mutexes-InTable;
  in_events = events-InTable;
  in_shms = shms-InTable;
}
