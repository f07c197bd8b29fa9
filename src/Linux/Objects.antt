-- ===== src/Linux/Objects.antt =====
-- linux/ipcdrv/ipcmodule.h: the structures that the driver allocates, its own state and the
-- identifiers. Field names drop the prefix that each structure repeats. An entry is allocated when it
-- joins its list and freed when it leaves it, so a list is its entries at their addresses, in the
-- list's order. A `struct semaphore` is its count; the counters are 32-bit words.
use gipcy.Base.{ℕ, ℤ, List, []}
use gipcy.Driver.Ioctl.{Ptr, Name}

abbrev pub sem_id : ℕ
sem_id = 0x11223344

abbrev pub mutex_id : ℕ
mutex_id = 0x22334455

abbrev pub event_id : ℕ
event_id = 0x33445566

abbrev pub shm_id : ℕ
shm_id = 0x44556677

pub record Sem : Type 0 where
  pub name : Name
  pub handle : Ptr
  pub owner_count : ℕ
  pub lock_count : ℕ
  pub sem : ℕ
  pub id : ℕ

pub record Mutex : Type 0 where
  pub name : Name
  pub handle : Ptr
  pub owner_count : ℕ
  pub lock_count : ℕ
  pub lockerid : ℤ
  pub mutex : ℕ
  pub id : ℕ

pub record Event : Type 0 where
  pub name : Name
  pub handle : Ptr
  pub owner_count : ℕ
  pub lock_count : ℕ
  pub event : ℕ
  pub flag : ℕ
  pub id : ℕ

pub record Shm : Type 0 where
  pub name : Name
  pub handle : Ptr
  pub owner_count : ℕ
  pub id : ℕ

-- `struct ipc_driver`, as far as requests change it. The locks `m_*_lock` are taken and given back
-- within one request, around each use of a list.
pub record Driver : Type 0 where
  pub usage : ℕ
  pub sem_list : List (Ptr × Sem)
  pub mutex_list : List (Ptr × Mutex)
  pub event_list : List (Ptr × Event)
  pub shm_list : List (Ptr × Shm)

abbrev pub no_entries : ℕ → Driver
no_entries usage = record {
  usage = usage;
  sem_list = [];
  mutex_list = [];
  event_list = [];
  shm_list = [];
}
