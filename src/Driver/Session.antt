-- ===== src/Driver/Session.antt =====
-- Sessions of clients with `io_devctl`: who holds a mutex after a sequence of requests on mutexes.
pub mod Answers
pub mod Balance
pub mod Exclusion
pub mod Serving
use gipcy.Base.{ℕ, ℤ, Bool, ◌&&◌, ◌≡◌, ◌≢◌, List, [], ◌∷◌, ◌++◌, Option, none, some}
use gipcy.Driver.Ioctl.{Ptr, mutex_lock, mutex_unlock, lock_param, unlock_param}
use gipcy.Driver.Objects.{Mutex}
use gipcy.Driver.Machine.{Env, Timespec, World, Run, ok}
use gipcy.Driver.Table.Cells.{at}
use gipcy.Driver.Devctl.{Response, error, reply, io_devctl}

-- The clock at a request, and whether a signal comes while it waits.
abbrev pub at_moment : Env → Timespec → Bool → Env
at_moment e now signal = record e { now = now; interrupted = signal }

-- The clock goes on between two requests. Signals come during a session as they like if `interrupted`
-- holds in its environment, and otherwise none comes.
abbrev pub at_time : Env → Timespec → Bool → Env
at_time e now signal = at_moment e now (e.interrupted && signal)

-- What io_devctl makes of a request to capture or to release a mutex.
abbrev pub capture : Env → Ptr → ℤ → World → Run Response
capture e q timeout = io_devctl e none (mutex_lock (lock_param q timeout))

abbrev pub release : Env → Ptr → World → Run Response
release e q = io_devctl e none (mutex_unlock (unlock_param q))

module _ (e : Env) (q : Ptr) (cs : List (Ptr × Mutex)) (start : World) where
  -- The worlds that requests lead to from `start`, with the clients that hold the mutex `q` then. A
  -- client releases `q` only while it holds it; with the other mutexes of the table `cs` clients do what
  -- they like. A request that the driver does not answer leads nowhere.
  pub data Held : World → List ℕ → Type 0 where
    nobody : Held start []
    captured :
        (now : Timespec) (signal : Bool) (client : ℕ) (timeout : ℤ) {w w' : World} {hs : List ℕ}
        {h : Option Ptr}
        → Held w hs
        → capture (at_time e now signal) q timeout w ≡ ok (reply h) w'
        → Held w' (client ∷ hs)
    refused :
        (now : Timespec) (signal : Bool) (timeout n : ℤ) {w w' : World} {hs : List ℕ}
        → Held w hs
        → capture (at_time e now signal) q timeout w ≡ ok (error n) w'
        → Held w' hs
    released :
        (now : Timespec) (signal : Bool) (client : ℕ) (xs ys : List ℕ) {w w' : World}
        {response : Response}
        → Held w (xs ++ client ∷ ys)
        → release (at_time e now signal) q w ≡ ok response w'
        → Held w' (xs ++ ys)
    captured_other :
        (now : Timespec) (signal : Bool) (p : Ptr) (a : Mutex) (timeout : ℤ) {w w' : World}
        {hs : List ℕ} {response : Response}
        → p ≢ q
        → at p cs ≡ some a
        → Held w hs
        → capture (at_time e now signal) p timeout w ≡ ok response w'
        → Held w' hs
    released_other :
        (now : Timespec) (signal : Bool) (p : Ptr) (a : Mutex) {w w' : World} {hs : List ℕ}
        {response : Response}
        → p ≢ q
        → at p cs ≡ some a
        → Held w hs
        → release (at_time e now signal) p w ≡ ok response w'
        → Held w' hs
