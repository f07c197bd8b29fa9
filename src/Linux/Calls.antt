-- ===== src/Linux/Calls.antt =====
-- The calls of a program on Linux with the module loaded: linux/libsrc/insys. This file has the
-- descriptor of the device, linux/libsrc/insys/linipc.cpp, and the system's `ioctl` in between: a
-- negative result of the driver is -1 in the program, with the number in errno. The structure is a local
-- variable of the call, which the driver can read and write.
pub mod SemIpc
pub mod MutexIpc
pub mod EventIpc
pub mod ShmIpc
pub mod Sessions
pub mod Deleting
pub mod Events
use gipcy.Base.{
  ℕ, suc, ℤ, pos, negsuc, neg, is_neg, Bool, true, false, Option, none, some, ltb, if◌then◌else◌,
}
use gipcy.Driver.Ioctl.{Ptr, null}
use gipcy.Linux.Ioctl.{CreateParam, UserArg, Request}
use gipcy.Linux.Objects.{Driver}
use gipcy.Linux.Kernel.{Kernel, Ran, done, ◌>>=◌}
use gipcy.Linux.Rw.{Answer}
use gipcy.Linux.Module.{ipc_device_ioctl}

-- IPC_OK, and IPC_GENERAL_ERROR, IPC_INVALID_HANDLE, IPC_WAIT_TIMEOUT and IPC_DRIVER_NOT_LOADED as ints.
abbrev pub ipc_ok : ℤ
ipc_ok = pos 0

abbrev pub general_error : ℤ
general_error = neg 0x3fffff00

abbrev pub invalid_handle : ℤ
invalid_handle = neg 0x3ffffeff

abbrev pub wait_timeout : ℤ
wait_timeout = neg 0x3ffffefe

abbrev pub driver_not_loaded : ℤ
driver_not_loaded = neg 0x3ffffefb

-- `ipc_driver_fd > 0`.
abbrev pub is_open : ℤ → Bool
is_open (pos n) = ltb 0 n
is_open (negsuc n) = false

-- The result and the descriptor afterwards; `opens` is what the system's `open` answers.
unfoldable pub open_ipc_driver : ℤ → ℤ → ℤ × ℤ
open_ipc_driver opens fd =
    if is_open fd
    then (ipc_ok, fd)
    else if is_neg opens
    then (driver_not_loaded, opens)
    else (ipc_ok, opens)

unfoldable pub ipc_driver_handle : ℤ → ℤ
ipc_driver_handle fd = if is_open fd then fd else neg 1

unfoldable pub close_ipc_driver : ℤ → ℤ × ℤ
close_ipc_driver fd = if is_open fd then (pos 0, neg 1) else (pos 0, fd)

unfoldable pub ipc_init : ℤ → ℤ → ℤ × ℤ
ipc_init opens fd = open_ipc_driver opens fd

unfoldable pub ipc_cleanup : ℤ → ℤ × ℤ
ipc_cleanup fd = close_ipc_driver fd

-- What a program gets from `ioctl`: its result, errno if that is -1, and what was written.
pub record Called : Type 0 where
  pub result : ℤ
  pub errno : ℕ
  pub written : Option CreateParam

abbrev pub called : Answer → Called
called x = elim x.error [
  | pos n ↦ record { result = pos n; errno = 0; written = x.written }
  | negsuc n ↦ record { result = neg 1; errno = suc n; written = x.written }
]

abbrev pub ioctl : Kernel → Request → Driver → Ran (Called × Driver)
ioctl e r d = do (x, d') ← ipc_device_ioctl e r d; done (called x, d')

abbrev pub own : {A : Type 0} → A → UserArg A
own param = record { readable = some param; writable = true }

-- The calls that open an object: NULL without a device or after an error.
abbrev pub opened_handle : Called → Ptr
opened_handle c =
    if is_neg c.result then null else elim c.written [ none ↦ null | some param ↦ param.handle ]

unfoldable pub create_object : Kernel → ℤ → Request → Driver → Ran (Ptr × Driver)
create_object e fd r d =
    if is_neg (ipc_driver_handle fd)
    then done (null, d)
    else do (c, d') ← ioctl e r d; done (opened_handle c, d')

-- The other calls: -1 without a device, `failed` after an error, and IPC_OK.
abbrev pub told : (Called → ℤ) → Called → ℤ
told failed c = if is_neg c.result then failed c else ipc_ok

unfoldable pub use_object : Kernel → ℤ → (Called → ℤ) → Request → Driver → Ran (ℤ × Driver)
use_object e fd failed r d =
    if is_neg (ipc_driver_handle fd)
    then done (neg 1, d)
    else do (c, d') ← ioctl e r d; done (told failed c, d')
