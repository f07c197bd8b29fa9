-- ===== src/Linux/Session.antt =====
-- Sessions of programs with the Linux driver: the states that fair requests lead to, with what the
-- programs have opened and closed, and with the lockers that hold a mutex.
pub mod Balance
pub mod Frame
pub mod Untouched
pub mod Mutexes
pub mod OneHolder
pub mod Answers
use gipcy.Base.{
  ℕ, ◌+◌, ◌≡◌, ◌≢◌, ◌⊎◌, ℤ, pos, negsuc, List, [], ◌∷◌, Bool, true, some, none, if◌then◌else◌,
}
use gipcy.Driver.Ioctl.{Ptr, Name}
use gipcy.Driver.Table.Cells.{at}
use gipcy.Linux.Ioctl.{
  LockParam, UnlockParam, UserArg, Request, mutex_lock, mutex_unlock, mutex_close,
}
use gipcy.Linux.Objects.{Mutex, Driver}
use gipcy.Linux.Kernel.{Kernel, done, user_handle, container_of}
use gipcy.Linux.MutexPart.{same_int}
use gipcy.Linux.Rw.{Answer}
use gipcy.Linux.Module.{ipc_device_ioctl}
use gipcy.Linux.Safety.{Part, Fair, gained, lost, nothing, DriverSound, Given}

module _ (start : Driver) where
  -- The states after fair requests, with the owners that the requests took and gave.
  pub data Reached : Driver → (Part → Name → ℕ) → (Part → Name → ℕ) → Type 0 where
    begin : Reached start nothing nothing
    asked :
        (e : Kernel) (r : Request) {d d' : Driver} {took gave : Part → Name → ℕ} (x : Answer)
        → Reached d took gave
        → Fair e d r
        → ipc_device_ioctl e r d ≡ done (x, d')
        → Reached d' (λ k n. took k n + lost d r k n) (λ k n. gave k n + gained e d r k n)

-- Requests of the locker `c` to capture and to release the entry at `q`.
abbrev pub capture : Ptr → ℤ → ℤ → Request
capture q c timeout = mutex_lock (record {
  readable = some (record { handle = user_handle q; timeout = timeout; lockerid = c });
  writable = true;
})

abbrev pub release : Ptr → ℤ → Request
release q c =
    mutex_unlock (record {
      readable = some (record { handle = user_handle q; lockerid = c });
      writable = true;
    })

-- The request is not one to capture, release or close the mutex at `q`.
abbrev pub Elsewhere : Ptr → Request → Type 0
Elsewhere q (mutex_lock arg) = Given arg (λ param. container_of param.handle ≢ q)
Elsewhere q (mutex_unlock arg) = Given arg (λ param. container_of param.handle ≢ q)
Elsewhere q (mutex_close arg) = Given arg (λ param. container_of param.handle ≢ q)
Elsewhere q _ = Unit {0}

abbrev pub Among : ℤ → List ℤ → Type 0
Among c [] = ⊥
Among c (x ∷ xs) = (c ≡ x) ⊎ Among c xs

abbrev pub without : ℤ → List ℤ → List ℤ
without c [] = []
without c (x ∷ xs) = if same_int x c then without c xs else x ∷ without c xs

module _ (q : Ptr) (start : Driver) where
  -- The states after fair requests, with the lockers that hold the mutex at `q`: those whose captures
  -- were answered 0 and who have not released it since. Anyone may ask to release it, whether it holds
  -- the mutex or not.
  pub data Held : Driver → List ℤ → Type 0 where
    nobody : Held start []
    captured :
        (e : Kernel) (c timeout : ℤ) {d d' : Driver} {hs : List ℤ} {x : Answer}
        → Held d hs
        → Fair e d (capture q c timeout)
        → ipc_device_ioctl e (capture q c timeout) d ≡ done (x, d')
        → x.error ≡ pos 0
        → Held d' (c ∷ hs)
    refused :
        (e : Kernel) (c timeout : ℤ) (n : ℕ) {d d' : Driver} {hs : List ℤ} {x : Answer}
        → Held d hs
        → Fair e d (capture q c timeout)
        → ipc_device_ioctl e (capture q c timeout) d ≡ done (x, d')
        → x.error ≡ negsuc n
        → Held d' hs
    released :
        (e : Kernel) (c : ℤ) {d d' : Driver} {hs : List ℤ} {x : Answer}
        → Held d hs
        → Fair e d (release q c)
        → ipc_device_ioctl e (release q c) d ≡ done (x, d')
        → Held d' (without c hs)
    other :
        (e : Kernel) (r : Request) {d d' : Driver} {hs : List ℤ} {x : Answer}
        → Held d hs
        → Fair e d r
        → Elsewhere q r
        → ipc_device_ioctl e r d ≡ done (x, d')
        → Held d' hs
