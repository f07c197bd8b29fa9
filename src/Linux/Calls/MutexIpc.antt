-- ===== src/Linux/Calls/MutexIpc.antt =====
-- linux/libsrc/insys/mutexipc.cpp. `thread` is what gettid returns in the calling thread.
use gipcy.Base.{ℤ, pos, neg, Bool, if◌then◌else◌, take}
use gipcy.Driver.Ioctl.{Ptr, null, Name}
use gipcy.Linux.Ioctl.{mutex_open, mutex_lock, mutex_unlock, mutex_close}
use gipcy.Linux.Objects.{Driver}
use gipcy.Linux.Kernel.{Kernel, Ran}
use gipcy.Linux.Calls.{own, create_object, use_object, wait_timeout}

unfoldable pub ipc_create_mutex : Kernel → ℤ → ℤ → Name → Bool → Driver → Ran (Ptr × Driver)
ipc_create_mutex e fd thread name value = create_object e fd (
    mutex_open (
      own (record {
        name = take 127 name;
        value = if value then pos 1 else pos 0;
        flag = pos 0;
        lockerid = thread;
        handle = null;
      })))

unfoldable pub ipc_capture_mutex : Kernel → ℤ → ℤ → Ptr → ℤ → Driver → Ran (ℤ × Driver)
ipc_capture_mutex e fd thread handle timeout =
    use_object e fd (λ c. wait_timeout)
      (mutex_lock (own (record { handle = handle; timeout = timeout; lockerid = thread })))

unfoldable pub ipc_release_mutex : Kernel → ℤ → ℤ → Ptr → Driver → Ran (ℤ × Driver)
ipc_release_mutex e fd thread handle =
    use_object e fd (λ c. neg 1)
      (mutex_unlock (own (record { handle = handle; lockerid = thread })))

unfoldable pub ipc_delete_mutex : Kernel → ℤ → Ptr → Driver → Ran (ℤ × Driver)
ipc_delete_mutex e fd handle =
    use_object e fd (λ c. neg 1) (mutex_close (own (record { handle = handle })))
