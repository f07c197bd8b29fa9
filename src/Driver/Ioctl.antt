-- ===== src/Driver/Ioctl.antt =====
-- qnx/ipcdrv/ipcioctl.h: the structures that a client sends, and the error numbers of errno.h that
-- the driver answers with. A structure is its fields; `value`, `flag` and `timeout` are C ints. A
-- `char[128]` is the bytes before its terminating zero, and a pointer is its address.
use gipcy.Base.{ℕ, ℤ, neg, List}

abbrev pub Ptr : Type 0
Ptr = ℕ

abbrev pub null : Ptr
null = 0

-- The bytes of a name, without the terminating zero.
abbrev pub Name : Type 0
Name = List ℕ

-- `sizeof(name)` in every structure.
abbrev pub name_size : ℕ
name_size = 128

abbrev pub einval : ℕ
einval = 22

abbrev pub ebusy : ℕ
ebusy = 16

abbrev pub invalid : ℤ
invalid = neg einval

abbrev pub busy : ℤ
busy = neg ebusy

pub record CreateParam : Type 0 where
  pub name : Name
  pub value : ℤ
  pub flag : ℤ
  pub handle : Ptr

pub record LockParam : Type 0 where
  pub handle : Ptr
  pub timeout : ℤ

pub record UnlockParam : Type 0 where
  pub handle : Ptr

pub record ResetParam : Type 0 where
  pub handle : Ptr

pub record CloseParam : Type 0 where
  pub handle : Ptr

-- The IOCTL_IPC_* commands with the data area of each; `unknown` is any other command.
pub data Request : Type 0 where
  sem_open : CreateParam → Request
  sem_lock : LockParam → Request
  sem_unlock : UnlockParam → Request
  sem_close : CloseParam → Request
  mutex_open : CreateParam → Request
  mutex_lock : LockParam → Request
  mutex_unlock : UnlockParam → Request
  mutex_close : CloseParam → Request
  event_open : CreateParam → Request
  event_lock : LockParam → Request
  event_unlock : UnlockParam → Request
  event_reset : ResetParam → Request
  event_close : CloseParam → Request
  shm_open : CreateParam → Request
  shm_close : CloseParam → Request
  unknown : Request

abbrev pub lock_param : Ptr → ℤ → LockParam
lock_param q timeout = record { handle = q; timeout = timeout }

abbrev pub unlock_param : Ptr → UnlockParam
unlock_param q = record { handle = q }

abbrev pub close_param : Ptr → CloseParam
close_param q = record { handle = q }
