-- ===== src/Linux/Calls/SemIpc.antt =====
-- linux/libsrc/insys/semipc.cpp.
use gipcy.Base.{ℤ, pos, neg, take}
use gipcy.Driver.Ioctl.{Ptr, null, Name}
use gipcy.Linux.Ioctl.{sem_open, sem_lock, sem_unlock, sem_close}
use gipcy.Linux.Objects.{Driver}
use gipcy.Linux.Kernel.{Kernel, Ran}
use gipcy.Linux.Calls.{own, create_object, use_object}

-- The count starts at 1, whatever the program asks for.
unfoldable pub ipc_create_semaphore : Kernel → ℤ → Name → ℤ → Driver → Ran (Ptr × Driver)
ipc_create_semaphore e fd name value = create_object e fd (
    sem_open (
      own (record {
        name = take 127 name;
        value = pos 1;
        flag = pos 0;
        lockerid = pos 0;
        handle = null;
      })))

unfoldable pub ipc_lock_semaphore : Kernel → ℤ → Ptr → ℤ → Driver → Ran (ℤ × Driver)
ipc_lock_semaphore e fd handle timeout =
    use_object e fd (λ c. c.result)
      (sem_lock (own (record { handle = handle; timeout = timeout; lockerid = pos 0 })))

unfoldable pub ipc_unlock_semaphore : Kernel → ℤ → Ptr → Driver → Ran (ℤ × Driver)
ipc_unlock_semaphore e fd handle =
    use_object e fd (λ c. neg 1) (sem_unlock (own (record { handle = handle; lockerid = pos 0 })))

unfoldable pub ipc_delete_semaphore : Kernel → ℤ → Ptr → Driver → Ran (ℤ × Driver)
ipc_delete_semaphore e fd handle =
    use_object e fd (λ c. neg 1) (sem_close (own (record { handle = handle })))
