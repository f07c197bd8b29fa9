-- ===== src/Client/Sessions.antt =====
-- IPC_captureMutex of qnx/insys/mutexipc.cpp in sessions of clients with the driver.
use gipcy.Base.{ℕ, ◌≡◌, ◌∙◌, ℤ, pos, neg, Bool, true, false, List, ◌∷◌, some}
use gipcy.Driver.Ioctl.{Ptr, mutex_lock, lock_param}
use gipcy.Driver.Objects.{Mutex, Driver}
use gipcy.Driver.Machine.{Env, Timespec, Memory, World, world, ok}
use gipcy.Driver.Table.Cells.{at}
use gipcy.Driver.Registry.{Registry, Realises}
use gipcy.Driver.Devctl.{error}
use gipcy.Driver.Session.{at_moment, Held}
use gipcy.Driver.Session.Exclusion.{capture-excluded}
use gipcy.Client.Device.{is_open}
use gipcy.Client.Requests.{Link}
use gipcy.Client.Requests.Sent.{Delivers, NeverNegative, call_object-sent}
use gipcy.Client.MutexIpc.{ipc_capture_mutex}

module _ (l : Link) (fd : ℤ) (opens : is_open fd ≡ true) (good : Delivers l) (e : Env) (m : Memory)
    (d : Driver) (r : Registry) (is : Realises e.sem_value_max m d r) (q : Ptr) (s : Mutex)
    (known : at q r.mutex_cells ≡ some s) (one : s.mutex ≡ 1) where
  -- In a session that starts in a world that realises a registry, with an entry `q` of count 1 that
  -- clients release only while they hold it, and in which no signal has ended a wait; with an open device
  -- and a C library that delivers requests and replies and whose `devctl` never returns a negative
  -- number: while a client holds `q`, IPC_captureMutex of `q` with a timeout of 0 or more returns IPC_OK
  -- (0), as if the caller had captured it, and changes nothing.
  pub ipc_capture_mutex-timeout :
      {w : World} {c : ℕ} {hs : List ℕ} (now : Timespec) (signal : Bool) (n : ℕ)
      → NeverNegative l
      → e.interrupted ≡ false
      → Held e q r.mutex_cells (world m d) w (c ∷ hs)
      → ipc_capture_mutex l (at_moment e now signal) fd q (pos n) w ≡ ok (pos 0) w
  unfolding ipc_capture_mutex
  ipc_capture_mutex-timeout {w} now signal n never quiet held =
      call_object-sent l (at_moment e now signal) fd (mutex_lock (lock_param q (pos n))) w opens
        good (λ res. neg 1) (error (neg 1)) w
        ((capture-excluded e m d r is q s known one now n quiet held).2 signal)
      ∙ rw (never (error (neg 1)))
