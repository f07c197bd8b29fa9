-- ===== src/Linux/Ioctl.antt =====
-- linux/ipcdrv/ipcioctl.h: the structures that a program hands to the driver, and the error numbers
-- that the driver answers with. A structure is its fields, an int is a ℤ, a pointer is its address in
-- 64 bits, and a `char[128]` is the bytes before its terminating zero.
use gipcy.Base.{ℤ, neg, Option, Bool}
use gipcy.Driver.Ioctl.{Ptr, Name}

pub record CreateParam : Type 0 where
  pub name : Name
  pub value : ℤ
  pub flag : ℤ
  pub lockerid : ℤ
  pub handle : Ptr

pub record LockParam : Type 0 where
  pub handle : Ptr
  pub timeout : ℤ
  pub lockerid : ℤ

pub record UnlockParam : Type 0 where
  pub handle : Ptr
  pub lockerid : ℤ

pub record ResetParam : Type 0 where
  pub handle : Ptr

pub record CloseParam : Type 0 where
  pub handle : Ptr

-- The argument of an ioctl: the structure that `copy_from_user` reads there, if it can, and whether
-- `copy_to_user` can write there.
pub record UserArg (A : Type 0) : Type 0 where
  pub readable : Option A
  pub writable : Bool

-- The IOCTL_IPC_* commands with their arguments; `unknown` is any other command.
pub data Request : Type 0 where
  sem_open : UserArg CreateParam → Request
  sem_lock : UserArg LockParam → Request
  sem_unlock : UserArg UnlockParam → Request
  sem_close : UserArg CloseParam → Request
  mutex_open : UserArg CreateParam → Request
  mutex_lock : UserArg LockParam → Request
  mutex_unlock : UserArg UnlockParam → Request
  mutex_close : UserArg CloseParam → Request
  event_open : UserArg CreateParam → Request
  event_lock : UserArg LockParam → Request
  event_unlock : UserArg UnlockParam → Request
  event_reset : UserArg ResetParam → Request
  event_close : UserArg CloseParam → Request
  shm_open : UserArg CreateParam → Request
  shm_close : UserArg CloseParam → Request
  unknown : Request

-- -EINVAL, -EBUSY, -EFAULT, -EINTR, -ETIME and -ETIMEDOUT.
abbrev pub invalid : ℤ
invalid = neg 22

abbrev pub busy : ℤ
busy = neg 16

abbrev pub bad_address : ℤ
bad_address = neg 14

abbrev pub interrupted : ℤ
interrupted = neg 4

abbrev pub expired : ℤ
expired = neg 62

abbrev pub timed_out : ℤ
timed_out = neg 110
