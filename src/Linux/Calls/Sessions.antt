-- ===== src/Linux/Calls/Sessions.antt =====
-- Mutual exclusion of the threads that call IPC_captureMutex and IPC_releaseMutex on Linux.
use mathlib.Core.Path.{subst}
use gipcy.Base.{ℕ, ◌≡◌, refl, ◌≢◌, ℤ, pos, negsuc, true, false, is_neg, List, [], some, arith}
use gipcy.Driver.Ioctl.{Ptr}
use gipcy.Driver.Table.Cells.{at}
use gipcy.Linux.Ioctl.{expired, Request}
use gipcy.Linux.Objects.{Mutex, Driver}
use gipcy.Linux.Kernel.{Kernel, done, waits, user_handle}
use gipcy.Linux.Rw.{answer}
use gipcy.Linux.Module.{ipc_device_ioctl}
use gipcy.Linux.Safety.{DriverSound}
use gipcy.Linux.Session.{Among, Held}
use gipcy.Linux.Session.Answers.{Held-excluded, Held-granted}
use gipcy.Linux.Calls.{
  Called, is_open, ipc_driver_handle, use_object, ipc_ok, wait_timeout, told, called,
}
use gipcy.Linux.Calls.MutexIpc.{ipc_capture_mutex}

pub ipc_driver_handle-open : (fd : ℤ) → is_open fd ≡ true → is_neg (ipc_driver_handle fd) ≡ false
unfolding ipc_driver_handle
ipc_driver_handle-open (pos n) h = ground arith
ipc_driver_handle-open (negsuc n) h = cc

-- What a call returns to the program for the driver's answer.
pub use_object-answer :
    (e : Kernel) (fd : ℤ) (failed : Called → ℤ) (r : Request) (d d' : Driver) (n : ℤ)
    → is_open fd ≡ true
    → ipc_device_ioctl e r d ≡ done (answer n, d')
    → use_object e fd failed r d ≡ done (told failed (called (answer n)), d')
unfolding use_object
use_object-answer e fd failed r d d' n opens run = rw (ipc_driver_handle-open fd opens, run) refl

pub use_object-waits :
    (e : Kernel) (fd : ℤ) (failed : Called → ℤ) (r : Request) (d : Driver)
    → is_open fd ≡ true
    → ipc_device_ioctl e r d ≡ waits
    → use_object e fd failed r d ≡ waits
unfolding use_object
use_object-waits e fd failed r d opens run = rw (ipc_driver_handle-open fd opens, run) refl

module _ (q : Ptr) (start : Driver) (s : DriverSound start) (a : Mutex)
    (there : at q start.mutex_list ≡ some a) (free : a.lockerid ≡ pos 0) (fd : ℤ)
    (opens : is_open fd ≡ true) where
  -- In a session that starts with a mutex without a locker in a sound driver, with the device open: while
  -- one thread holds the mutex, IPC_captureMutex in another one does not return if the timeout is
  -- negative and no signal comes, and returns IPC_WAIT_TIMEOUT and changes nothing if it is 0 or more;
  -- while no thread holds it, the call returns IPC_OK with any timeout.
  pub ipc_capture_mutex-answers :
      {d : Driver} {hs : List ℤ} (e : Kernel) (b : ℤ)
      → Held q start d hs
      → b ≢ pos 0
      → e.signalled ≡ false
      → ((c : ℤ) (n : ℕ)
          → Among c hs
          → b ≢ c
          → (ipc_capture_mutex e fd b (user_handle q) (negsuc n) d ≡ waits)
            × (ipc_capture_mutex e fd b (user_handle q) (pos n) d ≡ done (wait_timeout, d)))
        × ((t : ℤ)
            → hs ≡ []
            → (d' : Driver) × (ipc_capture_mutex e fd b (user_handle q) t d ≡ done (ipc_ok, d')))
  unfolding ipc_capture_mutex
  ipc_capture_mutex-answers {d} e b held ne calm = (
    λ c n holds other.
        let (sleeps, expires) =
          Held-excluded q start s a there free e b c n held holds other calm in
        (
          use_object-waits e fd _ _ d opens sleeps,
          use_object-answer e fd (λ c. wait_timeout) _ d d expired opens expires,
        ),
    λ t empty.
        let (d', granted) =
          Held-granted q start s a there free e b t (subst (λ hs. Held q start d hs) empty held)
            ne in
        (d', use_object-answer e fd (λ c. wait_timeout) _ d d' (pos 0) opens granted),
  )
