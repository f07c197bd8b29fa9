-- ===== src/Linux/Module.antt =====
-- linux/ipcdrv/ipcmodule.c: the entry points of the character device. The file that was opened leads
-- to the driver, so the tests for a missing driver are left out.
pub mod Files
pub mod Copying
use gipcy.Base.{ℤ, pos, ◌==◌, if◌then◌else◌}
use gipcy.Linux.Ioctl.{
  Request, sem_open, sem_lock, sem_unlock, sem_close, mutex_open, mutex_lock, mutex_unlock,
  mutex_close, event_open, event_lock, event_unlock, event_reset, event_close, shm_open, shm_close,
  unknown, invalid,
}
use gipcy.Linux.Objects.{Driver}
use gipcy.Linux.Kernel.{Kernel, Ran, done, atomic_inc, atomic_dec}
use gipcy.Linux.SemPart.{ipc_sem_close_all}
use gipcy.Linux.MutexPart.{ipc_mutex_close_all}
use gipcy.Linux.EventPart.{ipc_event_close_all}
use gipcy.Linux.ShmPart.{ipc_shm_close_all}
use gipcy.Linux.Rw.{
  Answer, answer, ioctl_sem_open, ioctl_sem_lock, ioctl_sem_unlock, ioctl_sem_close,
  ioctl_mutex_open, ioctl_mutex_lock, ioctl_mutex_unlock, ioctl_mutex_close, ioctl_event_open,
  ioctl_event_lock, ioctl_event_unlock, ioctl_event_reset, ioctl_event_close, ioctl_shm_open,
  ioctl_shm_close,
}

unfoldable pub ipc_device_open : Driver → ℤ × Driver
ipc_device_open d = (pos 0, record d { usage = atomic_inc d.usage })

abbrev pub close_everything : Driver → Driver
close_everything d =
    let d1 = (ipc_sem_close_all d).1 in
    let d2 = (ipc_mutex_close_all d1).1 in
    let d3 = (ipc_event_close_all d2).1 in (ipc_shm_close_all d3).1

unfoldable pub ipc_device_close : Driver → ℤ × Driver
ipc_device_close d =
    let d' = record d { usage = atomic_dec d.usage } in
    (pos 0, if d'.usage == 0 then close_everything d' else d')

unfoldable pub ipc_device_ioctl : Kernel → Request → Driver → Ran (Answer × Driver)
ipc_device_ioctl e (sem_open arg) d = ioctl_sem_open e arg d
ipc_device_ioctl e (sem_lock arg) d = ioctl_sem_lock e arg d
ipc_device_ioctl e (sem_unlock arg) d = ioctl_sem_unlock e arg d
ipc_device_ioctl e (sem_close arg) d = ioctl_sem_close e arg d
ipc_device_ioctl e (mutex_open arg) d = ioctl_mutex_open e arg d
ipc_device_ioctl e (mutex_lock arg) d = ioctl_mutex_lock e arg d
ipc_device_ioctl e (mutex_unlock arg) d = ioctl_mutex_unlock e arg d
ipc_device_ioctl e (mutex_close arg) d = ioctl_mutex_close e arg d
ipc_device_ioctl e (event_open arg) d = ioctl_event_open e arg d
ipc_device_ioctl e (event_lock arg) d = ioctl_event_lock e arg d
ipc_device_ioctl e (event_unlock arg) d = ioctl_event_unlock e arg d
ipc_device_ioctl e (event_close arg) d = ioctl_event_close e arg d
ipc_device_ioctl e (event_reset arg) d = ioctl_event_reset e arg d
ipc_device_ioctl e (shm_open arg) d = ioctl_shm_open e arg d
ipc_device_ioctl e (shm_close arg) d = ioctl_shm_close e arg d
ipc_device_ioctl e unknown d = done (answer invalid, d)
