-- ===== src/Linux/Calls/EventIpc.antt =====
-- linux/libsrc/insys/eventipc.cpp.
use gipcy.Base.{ℤ, pos, neg, Bool, if◌then◌else◌, take, ◌==◌}
use gipcy.Driver.Ioctl.{Ptr, null, Name}
use gipcy.Linux.Ioctl.{event_open, event_lock, event_unlock, event_reset, event_close}
use gipcy.Linux.Objects.{Driver}
use gipcy.Linux.Kernel.{Kernel, Ran}
use gipcy.Linux.Calls.{Called, own, create_object, use_object, ipc_ok, wait_timeout}

unfoldable pub ipc_create_event : Kernel → ℤ → Name → Bool → Bool → Driver → Ran (Ptr × Driver)
ipc_create_event e fd name manual value = create_object e fd (
    event_open (
      own (record {
        name = take 127 name;
        value = if value then pos 0 else pos 1;
        flag = if manual then pos 1 else pos 0;
        lockerid = pos 0;
        handle = null;
      })))

-- Only ETIMEDOUT is an error to the program.
abbrev pub wait_failed : Called → ℤ
wait_failed c = if c.errno == 110 then wait_timeout else ipc_ok

unfoldable pub ipc_wait_event : Kernel → ℤ → Ptr → ℤ → Driver → Ran (ℤ × Driver)
ipc_wait_event e fd handle timeout =
    use_object e fd wait_failed
      (event_lock (own (record { handle = handle; timeout = timeout; lockerid = pos 0 })))

unfoldable pub ipc_set_event : Kernel → ℤ → Ptr → Driver → Ran (ℤ × Driver)
ipc_set_event e fd handle =
    use_object e fd (λ c. neg 1) (event_unlock (own (record { handle = handle; lockerid = pos 0 })))

unfoldable pub ipc_reset_event : Kernel → ℤ → Ptr → Driver → Ran (ℤ × Driver)
ipc_reset_event e fd handle =
    use_object e fd (λ c. neg 1) (event_reset (own (record { handle = handle })))

unfoldable pub ipc_delete_event : Kernel → ℤ → Ptr → Driver → Ran (ℤ × Driver)
ipc_delete_event e fd handle =
    use_object e fd (λ c. neg 1) (event_close (own (record { handle = handle })))
