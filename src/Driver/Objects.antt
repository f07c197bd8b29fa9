-- ===== src/Driver/Objects.antt =====
-- qnx/ipcdrv/ipcdrv.h: the structures that the driver allocates, its own state and the identifiers.
-- The field names drop the prefix that each structure repeats (`sem_owner_count` is `owner_count`).
-- A `sem_t` is its count; the unsigned counters wrap at 2 ^ 32.
use gipcy.Base.{ℕ, ◌+◌, ◌-◌, ◌%◌, ◌^◌, List, Option, none, some}
use gipcy.Driver.Ioctl.{Ptr, Name}

abbrev pub sem_id : ℕ
sem_id = 0x11223344

abbrev pub mutex_id : ℕ
mutex_id = 0x22334455

abbrev pub event_id : ℕ
event_id = 0x33445566

abbrev pub shm_id : ℕ
shm_id = 0x44556677

pub record Sem : Type 0 where
  pub name : Name
  pub file : Ptr
  pub handle : Ptr
  pub owner_count : ℕ
  pub lock_count : ℕ
  pub unlock_count : ℕ
  pub sem : ℕ
  pub id : ℕ

pub record Mutex : Type 0 where
  pub name : Name
  pub file : Ptr
  pub handle : Ptr
  pub owner_count : ℕ
  pub lock_count : ℕ
  pub unlock_count : ℕ
  pub mutex : ℕ
  pub id : ℕ

pub record Event : Type 0 where
  pub name : Name
  pub file : Ptr
  pub handle : Ptr
  pub owner_count : ℕ
  pub lock_count : ℕ
  pub unlock_count : ℕ
  pub event : ℕ
  pub flag : ℕ
  pub id : ℕ

pub record Shm : Type 0 where
  pub name : Name
  pub file : Ptr
  pub handle : Ptr
  pub owner_count : ℕ
  pub id : ℕ

-- What `malloc` hands out in this driver.
pub data Object : Type 0 where
  a_sem : Sem → Object
  a_mutex : Mutex → Object
  a_event : Event → Object
  a_shm : Shm → Object

-- The word that a read of the identifier meets where the structure lies that the reader takes it
-- for, or another one: the structures agree up to `lock_count`, ipcsem_t and ipcmutex_t throughout,
-- ipcevent_t has `event_flag` where these have the identifier, and ipcshm_t has its identifier where
-- the others have `lock_count`. `none` is a read past the end of the object.
abbrev pub sem_word : Object → Option ℕ
sem_word (a_sem s) = some s.id
sem_word (a_mutex m) = some m.id
sem_word (a_event e) = some e.flag
sem_word (a_shm s) = none

abbrev pub event_word : Object → Option ℕ
event_word (a_sem s) = none
event_word (a_mutex m) = none
event_word (a_event e) = some e.id
event_word (a_shm s) = none

abbrev pub shm_word : Object → Option ℕ
shm_word (a_sem s) = some s.lock_count
shm_word (a_mutex m) = some m.lock_count
shm_word (a_event e) = some e.lock_count
shm_word (a_shm s) = some s.id

-- `++c` and `--c` on an `atomic_t`.
unfoldable pub increment : ℕ → ℕ
increment c = (c + 1) % 2 ^ 32

unfoldable pub decrement : ℕ → ℕ
decrement c = (c + 2 ^ 32 - 1) % 2 ^ 32

-- The `struct ipc_driver`. `m_devno` is never used.
pub record Driver : Type 0 where
  pub name : Name
  pub ipc_mutex : ℕ
  pub ipc_sem : ℕ
  pub usage : ℕ
  pub index : ℕ
  pub sem_list : List Ptr
  pub sem_lock : ℕ
  pub mutex_list : List Ptr
  pub mutex_lock : ℕ
  pub event_list : List Ptr
  pub event_lock : ℕ
  pub shm_list : List Ptr
  pub shm_lock : ℕ
