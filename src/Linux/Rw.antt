-- ===== src/Linux/Rw.antt =====
-- linux/ipcdrv/ioctlrw.c: each ioctl copies its structure from the program, runs the request, and an
-- opening copies the structure back. An answer is the result and the structure that was written.
use gipcy.Base.{ℤ, pos, negsuc, Option, none, some, ◌==◌, if◌then◌else◌}
use gipcy.Driver.Ioctl.{Ptr, null}
use gipcy.Linux.Ioctl.{
  CreateParam, LockParam, UnlockParam, ResetParam, CloseParam, UserArg, invalid, busy, bad_address,
}
use gipcy.Linux.Objects.{Driver}
use gipcy.Linux.Kernel.{Kernel, Ran, done, ◌>>=◌}
use gipcy.Linux.SemPart.{ipc_sem_create, ipc_sem_lock, ipc_sem_unlock, ipc_sem_close}
use gipcy.Linux.MutexPart.{
  same_int, ipc_mutex_create, ipc_mutex_lock, ipc_mutex_unlock, ipc_mutex_close,
}
use gipcy.Linux.EventPart.{
  ipc_event_create, ipc_event_lock, ipc_event_unlock, ipc_event_reset, ipc_event_close,
}
use gipcy.Linux.ShmPart.{ipc_shm_open, ipc_shm_close}

pub record Answer : Type 0 where
  pub error : ℤ
  pub written : Option CreateParam

abbrev pub answer : ℤ → Answer
answer error = record { error = error; written = none }

-- `copy_to_user` of the structure with the handle that an opening returned.
abbrev pub copy_back : UserArg CreateParam → CreateParam → Ptr → Answer
copy_back arg param handle =
    if handle == null
    then answer invalid
    else if arg.writable
    then (record { error = pos 0; written = some (record param { handle = handle }) })
    else answer bad_address

-- `copy_from_user`, and what follows if it can read the structure.
abbrev pub opens :
    (CreateParam → Driver → Ptr × Driver) → UserArg CreateParam → Driver → Ran (Answer × Driver)
opens create arg d = elim arg.readable [
  | none ↦ done (answer bad_address, d)
  | some param ↦ let (handle, d') = create param d in done (copy_back arg param handle, d')
]

abbrev pub serves :
    {A : Type 0} → (A → Driver → Ran (ℤ × Driver)) → UserArg A → Driver → Ran (Answer × Driver)
serves run arg d = elim arg.readable [
  | none ↦ done (answer bad_address, d)
  | some param ↦ do (error, d') ← run param d; done (answer error, d')
]

unfoldable pub ioctl_sem_open : Kernel → UserArg CreateParam → Driver → Ran (Answer × Driver)
ioctl_sem_open e = opens (ipc_sem_create e)

unfoldable pub ioctl_sem_close : Kernel → UserArg CloseParam → Driver → Ran (Answer × Driver)
ioctl_sem_close e = serves (ipc_sem_close e)

unfoldable pub ioctl_sem_lock : Kernel → UserArg LockParam → Driver → Ran (Answer × Driver)
ioctl_sem_lock e = serves (ipc_sem_lock e)

unfoldable pub ioctl_sem_unlock : Kernel → UserArg UnlockParam → Driver → Ran (Answer × Driver)
ioctl_sem_unlock e = serves (ipc_sem_unlock e)

unfoldable pub ioctl_mutex_open : Kernel → UserArg CreateParam → Driver → Ran (Answer × Driver)
ioctl_mutex_open e = opens (ipc_mutex_create e)

-- -EBUSY is no error here.
abbrev pub close_result : ℤ → ℤ
close_result (pos n) = pos 0
close_result (negsuc n) = if same_int (negsuc n) busy then pos 0 else negsuc n

unfoldable pub ioctl_mutex_close : Kernel → UserArg CloseParam → Driver → Ran (Answer × Driver)
ioctl_mutex_close e arg d = elim arg.readable [
  | none ↦ done (answer bad_address, d)
  | some param ↦ do (error, d') ← ipc_mutex_close e param d; done (answer (close_result error), d')
]

unfoldable pub ioctl_mutex_lock : Kernel → UserArg LockParam → Driver → Ran (Answer × Driver)
ioctl_mutex_lock e = serves (ipc_mutex_lock e)

unfoldable pub ioctl_mutex_unlock : Kernel → UserArg UnlockParam → Driver → Ran (Answer × Driver)
ioctl_mutex_unlock e = serves (ipc_mutex_unlock e)

unfoldable pub ioctl_event_open : Kernel → UserArg CreateParam → Driver → Ran (Answer × Driver)
ioctl_event_open e = opens (ipc_event_create e)

unfoldable pub ioctl_event_close : Kernel → UserArg CloseParam → Driver → Ran (Answer × Driver)
ioctl_event_close e = serves (ipc_event_close e)

unfoldable pub ioctl_event_lock : Kernel → UserArg LockParam → Driver → Ran (Answer × Driver)
ioctl_event_lock e = serves (ipc_event_lock e)

unfoldable pub ioctl_event_unlock : Kernel → UserArg UnlockParam → Driver → Ran (Answer × Driver)
ioctl_event_unlock e = serves (ipc_event_unlock e)

unfoldable pub ioctl_event_reset : Kernel → UserArg ResetParam → Driver → Ran (Answer × Driver)
ioctl_event_reset e = serves (ipc_event_reset e)

unfoldable pub ioctl_shm_open : Kernel → UserArg CreateParam → Driver → Ran (Answer × Driver)
ioctl_shm_open e = opens (ipc_shm_open e)

unfoldable pub ioctl_shm_close : Kernel → UserArg CloseParam → Driver → Ran (Answer × Driver)
ioctl_shm_close e = serves (ipc_shm_close e)
