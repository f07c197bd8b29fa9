-- ===== src/Linux/Safety/Slots.antt =====
-- The four tables of the Linux driver as slots of its state, for the proofs that are the same for each.
use gipcy.Base.{ℕ, ◌+◌, ◌≡◌, refl, List}
use gipcy.Driver.Ioctl.{Ptr, Name}
use gipcy.Linux.Objects.{Sem, Mutex, Event, Shm, Driver}
use gipcy.Linux.Entries.{Kind}
use gipcy.Linux.Entries.Sound.{Sound, Lawful}
use gipcy.Linux.Entries.Owners.{owners}
use gipcy.Linux.SemPart.{sems, put_sems}
use gipcy.Linux.MutexPart.{mutexes, put_mutexes}
use gipcy.Linux.EventPart.{events, put_events}
use gipcy.Linux.ShmPart.{shms, put_shms}
use gipcy.Linux.Safety.{
  AnyCount, OneLocker, OneWaiter, DriverSound, Part, semaphores, mutexes_part, events_part,
  memories, owners_of, only,
}

pub record Slot (A : Type 0) : Type 1 where
  pub kind : Kind A
  pub good : A → Type 0
  pub part : Part
  pub list : Driver → List (Ptr × A)
  pub put : Driver → List (Ptr × A) → Driver
  pub lawful : Lawful kind good
  pub list-Sound : (d : Driver) → DriverSound d → Sound kind good (list d)
  pub put-Sound :
      (d : Driver) (cs : List (Ptr × A))
      → DriverSound d
      → Sound kind good cs
      → DriverSound (put d cs)
  pub owners-put :
      (d : Driver) (cs : List (Ptr × A)) (taken added : Name → ℕ)
      → ((n : Name) → owners kind n cs + taken n ≡ owners kind n (list d) + added n)
      → (k : Part) (n : Name)
      → owners_of k n (put d cs) + only part taken k n ≡ owners_of k n d + only part added k n

abbrev pub sem_slot : Slot Sem
sem_slot = record {
  kind = sems;
  good = AnyCount;
  part = semaphores;
  list = λ d. d.sem_list;
  put = put_sems;
  lawful = record {
    name-with_owners = λ a n. refl;
    id-with_owners = λ a n. refl;
    owner_count-with_owners = λ a n. refl;
    good-with_owners = λ a n g. g;
  };
  list-Sound = λ d s. s.sem_table;
  put-Sound = λ d cs s is. record {
    sem_table = is;
    mutex_table = s.mutex_table;
    event_table = s.event_table;
    shm_table = s.shm_table;
  };
  owners-put = λ d cs taken added h k n.
      elim k
        as (λ k.
          owners_of k n (put_sems d cs) + only semaphores taken k n
          ≡ owners_of k n d + only semaphores added k n) [
            | semaphores ↦ h n
            | mutexes_part ↦ refl
            | events_part ↦ refl
            | memories ↦ refl
          ];
}

abbrev pub mutex_slot : Slot Mutex
mutex_slot = record {
  kind = mutexes;
  good = OneLocker;
  part = mutexes_part;
  list = λ d. d.mutex_list;
  put = put_mutexes;
  lawful = record {
    name-with_owners = λ a n. refl;
    id-with_owners = λ a n. refl;
    owner_count-with_owners = λ a n. refl;
    good-with_owners = λ a n g. g;
  };
  list-Sound = λ d s. s.mutex_table;
  put-Sound = λ d cs s is. record {
    sem_table = s.sem_table;
    mutex_table = is;
    event_table = s.event_table;
    shm_table = s.shm_table;
  };
  owners-put = λ d cs taken added h k n.
      elim k
        as (λ k.
          owners_of k n (put_mutexes d cs) + only mutexes_part taken k n
          ≡ owners_of k n d + only mutexes_part added k n) [
            | semaphores ↦ refl
            | mutexes_part ↦ h n
            | events_part ↦ refl
            | memories ↦ refl
          ];
}

abbrev pub event_slot : Slot Event
event_slot = record {
  kind = events;
  good = OneWaiter;
  part = events_part;
  list = λ d. d.event_list;
  put = put_events;
  lawful = record {
    name-with_owners = λ a n. refl;
    id-with_owners = λ a n. refl;
    owner_count-with_owners = λ a n. refl;
    good-with_owners = λ a n g. g;
  };
  list-Sound = λ d s. s.event_table;
  put-Sound = λ d cs s is. record {
    sem_table = s.sem_table;
    mutex_table = s.mutex_table;
    event_table = is;
    shm_table = s.shm_table;
  };
  owners-put = λ d cs taken added h k n.
      elim k
        as (λ k.
          owners_of k n (put_events d cs) + only events_part taken k n
          ≡ owners_of k n d + only events_part added k n) [
            | semaphores ↦ refl
            | mutexes_part ↦ refl
            | events_part ↦ h n
            | memories ↦ refl
          ];
}

abbrev pub shm_slot : Slot Shm
shm_slot = record {
  kind = shms;
  good = AnyCount;
  part = memories;
  list = λ d. d.shm_list;
  put = put_shms;
  lawful = record {
    name-with_owners = λ a n. refl;
    id-with_owners = λ a n. refl;
    owner_count-with_owners = λ a n. refl;
    good-with_owners = λ a n g. g;
  };
  list-Sound = λ d s. s.shm_table;
  put-Sound = λ d cs s is. record {
    sem_table = s.sem_table;
    mutex_table = s.mutex_table;
    event_table = s.event_table;
    shm_table = is;
  };
  owners-put = λ d cs taken added h k n.
      elim k
        as (λ k.
          owners_of k n (put_shms d cs) + only memories taken k n
          ≡ owners_of k n d + only memories added k n) [
            | semaphores ↦ refl
            | mutexes_part ↦ refl
            | events_part ↦ refl
            | memories ↦ h n
          ];
}
