-- ===== src/Linux/Safety.antt =====
-- What holds of the Linux driver between two requests, and which requests are fair: the terms in which
-- the theorems on `ipc_device_ioctl` are stated.
pub mod Slots
pub mod Acts
pub mod Requests
use gipcy.Base.{ℕ, ◌+◌, ◌^◌, ◌<◌, ◌≤◌, ◌≡◌, ◌≢◌, ◌⊎◌, ℤ, pos, false, List, none, some, length}
use gipcy.Driver.Ioctl.{Ptr, Name}
use gipcy.Linux.Ioctl.{
  CreateParam, LockParam, UnlockParam, CloseParam, UserArg, Request, sem_open, sem_lock, sem_unlock,
  sem_close, mutex_open, mutex_lock, mutex_unlock, mutex_close, event_open, event_lock,
  event_unlock, event_reset, event_close, shm_open, shm_close, unknown,
}
use gipcy.Linux.Objects.{Sem, Mutex, Event, Shm, Driver}
use gipcy.Linux.Kernel.{Kernel}
use gipcy.Linux.Entries.{Kind}
use gipcy.Linux.Entries.Sound.{Sound}
use gipcy.Linux.Entries.Owners.{owners}
use gipcy.Linux.Entries.Steps.{Harmless}
use gipcy.Linux.Entries.Opening.{Allocates, opened}
use gipcy.Linux.Entries.Closing.{closed}
use gipcy.Linux.SemPart.{sems}
use gipcy.Linux.MutexPart.{mutexes}
use gipcy.Linux.EventPart.{events}
use gipcy.Linux.ShmPart.{shms}

-- Nothing is asked of a semaphore's count.
abbrev pub AnyCount : {A : Type 0} → A → Type 0
AnyCount a = Unit {0}

-- A mutex is free and has no locker, or is taken once and has one.
abbrev pub OneLocker : Mutex → Type 0
OneLocker a =
    ((a.mutex ≡ 1) × (a.lockerid ≡ pos 0) × (a.lock_count ≡ 0))
    ⊎ ((a.mutex ≡ 0) × (a.lockerid ≢ pos 0) × (a.lock_count ≡ 1))

-- An event is there for one waiter, or one has taken it.
abbrev pub OneWaiter : Event → Type 0
OneWaiter a = a.event + a.lock_count ≡ 1

pub record DriverSound (d : Driver) : Type 0 where
  pub sem_table : Sound sems AnyCount d.sem_list
  pub mutex_table : Sound mutexes OneLocker d.mutex_list
  pub event_table : Sound events OneWaiter d.event_list
  pub shm_table : Sound shms AnyCount d.shm_list

-- The four tables.
pub data Part : Type 0 where
  semaphores : Part
  mutexes_part : Part
  events_part : Part
  memories : Part

-- How many openings of the name in the table are not closed yet.
abbrev pub owners_of : Part → Name → Driver → ℕ
owners_of semaphores n d = owners sems n d.sem_list
owners_of mutexes_part n d = owners mutexes n d.mutex_list
owners_of events_part n d = owners events n d.event_list
owners_of memories n d = owners shms n d.shm_list

-- A number for each name of one table, and 0 for the names of the others.
abbrev pub only : Part → (Name → ℕ) → Part → Name → ℕ
only semaphores f semaphores n = f n
only mutexes_part f mutexes_part n = f n
only events_part f events_part n = f n
only memories f memories n = f n
only _ f _ n = 0

abbrev pub Given : {A : Type 0} → UserArg A → (A → Type 0) → Type 0
Given arg P = elim arg.readable [ none ↦ Unit {0} | some param ↦ P param ]

-- A name that fits its field, memory for a new entry or none, and a counter that does not wrap.
abbrev pub Openable : {A : Type 0} → Kind A → Kernel → CreateParam → List (Ptr × A) → Type 0
Openable K e param cs =
    (length param.name ≤ 127) × Allocates K e cs × (owners K param.name cs + 1 < 2 ^ 32)

-- A request that a program may send: a handle that is not of the table leads to readable memory with
-- another identifier, a locker is not 0, and no signal ends a wait for a mutex.
abbrev pub Fair : Kernel → Driver → Request → Type 0
Fair e d (sem_open arg) = Given arg (λ param. Openable sems e param d.sem_list)
Fair e d (sem_lock arg) = Given arg (λ param. Harmless sems AnyCount e param.handle d.sem_list)
Fair e d (sem_unlock arg) = Given arg (λ param. Harmless sems AnyCount e param.handle d.sem_list)
Fair e d (sem_close arg) = Given arg (λ param. Harmless sems AnyCount e param.handle d.sem_list)
Fair e d (mutex_open arg) =
    Given arg (λ param. Openable mutexes e param d.mutex_list × (param.lockerid ≢ pos 0))
Fair e d (mutex_lock arg) = Given arg (λ param.
    Harmless mutexes OneLocker e param.handle d.mutex_list
    × (param.lockerid ≢ pos 0)
    × (e.signalled ≡ false))
Fair e d (mutex_unlock arg) =
    Given arg
      (λ param. Harmless mutexes OneLocker e param.handle d.mutex_list × (param.lockerid ≢ pos 0))
Fair e d (mutex_close arg) =
    Given arg (λ param. Harmless mutexes OneLocker e param.handle d.mutex_list)
Fair e d (event_open arg) = Given arg (λ param. Openable events e param d.event_list)
Fair e d (event_lock arg) =
    Given arg (λ param. Harmless events OneWaiter e param.handle d.event_list)
Fair e d (event_unlock arg) =
    Given arg (λ param. Harmless events OneWaiter e param.handle d.event_list)
Fair e d (event_reset arg) =
    Given arg (λ param. Harmless events OneWaiter e param.handle d.event_list)
Fair e d (event_close arg) =
    Given arg (λ param. Harmless events OneWaiter e param.handle d.event_list)
Fair e d (shm_open arg) = Given arg (λ param. Openable shms e param d.shm_list)
Fair e d (shm_close arg) = Given arg (λ param. Harmless shms AnyCount e param.handle d.shm_list)
Fair e d unknown = Unit {0}

abbrev pub nothing : Part → Name → ℕ
nothing k n = 0

abbrev pub given : {A : Type 0} → UserArg A → (A → Part → Name → ℕ) → Part → Name → ℕ
given arg f = elim arg.readable [ none ↦ nothing | some param ↦ f param ]

-- The owners that a request gives to each name of each table, and those it takes.
abbrev pub gained : Kernel → Driver → Request → Part → Name → ℕ
gained e d (sem_open arg) =
    given arg (λ param. only semaphores (opened sems e param.name d.sem_list))
gained e d (mutex_open arg) =
    given arg (λ param. only mutexes_part (opened mutexes e param.name d.mutex_list))
gained e d (event_open arg) =
    given arg (λ param. only events_part (opened events e param.name d.event_list))
gained e d (shm_open arg) = given arg (λ param. only memories (opened shms e param.name d.shm_list))
gained e d _ = nothing

abbrev pub lost : Driver → Request → Part → Name → ℕ
lost d (sem_close arg) = given arg (λ param. only semaphores (closed sems param.handle d.sem_list))
lost d (mutex_close arg) =
    given arg (λ param. only mutexes_part (closed mutexes param.handle d.mutex_list))
lost d (event_close arg) =
    given arg (λ param. only events_part (closed events param.handle d.event_list))
lost d (shm_close arg) = given arg (λ param. only memories (closed shms param.handle d.shm_list))
lost d _ = nothing
