-- ===== src/Linux/Module/Files.antt =====
-- The files that programs have open on the Linux driver, and what the last one leaves.
use mathlib.Core.Path.{subst}
use gipcy.Base.{
  ℕ, suc, ◌%◌, ◌^◌, ◌≡◌, refl, ◌∙◌, ℤ, inl, inr, Bool-cases, arith, ◌==◌, List, Option-cases,
}
use gipcy.Driver.Ioctl.{Ptr}
use gipcy.Linux.Ioctl.{
  UserArg, Request, sem_open, sem_lock, sem_unlock, sem_close, mutex_open, mutex_lock, mutex_unlock,
  mutex_close, event_open, event_lock, event_unlock, event_reset, event_close, shm_open, shm_close,
  unknown,
}
use gipcy.Linux.Objects.{Mutex, Driver, no_entries}
use gipcy.Linux.Kernel.{Kernel, Ran, done, waits, oops, ◌>>=◌, atomic_dec}
use gipcy.Linux.Entries.{use_entry, close_entry}
use gipcy.Linux.Entries.Closing.{close_all-empty}
use gipcy.Linux.SemPart.{
  sems, put_sems, lock_sem, unlock_sem, ipc_sem_create, ipc_sem_lock, ipc_sem_unlock, ipc_sem_close,
  ipc_sem_close_all,
}
use gipcy.Linux.MutexPart.{
  mutexes, put_mutexes, lock_mutex, unlock_mutex, ipc_mutex_create, ipc_mutex_lock,
  ipc_mutex_unlock, ipc_mutex_close, ipc_mutex_close_all,
}
use gipcy.Linux.EventPart.{
  events, put_events, lock_event, unlock_event, reset_event, ipc_event_create, ipc_event_lock,
  ipc_event_unlock, ipc_event_reset, ipc_event_close, ipc_event_close_all,
}
use gipcy.Linux.ShmPart.{shms, put_shms, ipc_shm_open, ipc_shm_close, ipc_shm_close_all}
use gipcy.Linux.Rw.{
  Answer, answer, close_result, serves, ioctl_sem_open, ioctl_sem_lock, ioctl_sem_unlock,
  ioctl_sem_close, ioctl_mutex_open, ioctl_mutex_lock, ioctl_mutex_unlock, ioctl_mutex_close,
  ioctl_event_open, ioctl_event_lock, ioctl_event_unlock, ioctl_event_reset, ioctl_event_close,
  ioctl_shm_open, ioctl_shm_close,
}
use gipcy.Linux.Module.{ipc_device_open, ipc_device_close, ipc_device_ioctl, close_everything}
use gipcy.Linux.Session.Frame.{Ends, Ends-any, serves-Ends, opens-Ends}

-- The states of the driver since it was loaded, with the number of files that are open on it. Requests
-- come through an open file, and may be anything.
pub data Files : Driver → ℕ → Type 0 where
  loaded : Files (no_entries 0) 0
  opened : {d : Driver} {n : ℕ} → Files d n → Files (ipc_device_open d).1 (suc n)
  closed : {d : Driver} {n : ℕ} → Files d (suc n) → Files (ipc_device_close d).1 n
  asked :
      (e : Kernel) (r : Request) {d d' : Driver} {n : ℕ} {x : Answer}
      → Files d (suc n)
      → ipc_device_ioctl e r d ≡ done (x, d')
      → Files d' (suc n)

abbrev SameUsage : Driver → Driver → Type 0
SameUsage d d' = d'.usage ≡ d.usage

uses :
    {A X : Type 0} (d : Driver) (arg : UserArg A) (m : A → Ran X) (put : X → ℤ × Driver)
    → ((x : X) → (put x).1.usage ≡ d.usage)
    → Ends
        (λ (x : Answer × Driver). SameUsage d x.1)
        (serves (λ param d. m param >>= λ x. done (put x)) arg d)
uses d arg m put same =
    serves-Ends (SameUsage d) (λ param d. m param >>= λ x. done (put x)) arg d refl
      (λ param read. Ends-any (λ (x : ℤ × Driver). SameUsage d x.1) (m param) put same)

abbrev put_back : Driver → ℤ × List (Ptr × Mutex) → Ran (ℤ × Driver)
put_back d x = done (x.0, put_mutexes d x.1)

abbrev told : ℤ × Driver → Ran (Answer × Driver)
told x = done (answer (close_result x.0), x.1)

closing :
    (d : Driver) (m : Ran (ℤ × List (Ptr × Mutex)))
    → Ends (λ (x : Answer × Driver). SameUsage d x.1) ((m >>= λ x. put_back d x) >>= λ x. told x)
closing d (done x) = refl
closing d waits = tt
closing d oops = tt

-- No request opens or closes a file.
ipc_device_ioctl-SameUsage :
    (e : Kernel) (r : Request) (d : Driver)
    → Ends (λ (x : Answer × Driver). SameUsage d x.1) (ipc_device_ioctl e r d)
unfolding ipc_device_ioctl ioctl_sem_open ioctl_sem_lock ioctl_sem_unlock ioctl_sem_close
    ioctl_mutex_open ioctl_mutex_lock ioctl_mutex_unlock ioctl_mutex_close ioctl_event_open
    ioctl_event_lock ioctl_event_unlock ioctl_event_reset ioctl_event_close ioctl_shm_open
    ioctl_shm_close ipc_sem_create ipc_sem_lock ipc_sem_unlock ipc_sem_close ipc_mutex_create
    ipc_mutex_lock ipc_mutex_unlock ipc_mutex_close ipc_event_create ipc_event_lock ipc_event_unlock
    ipc_event_reset ipc_event_close ipc_shm_open ipc_shm_close
ipc_device_ioctl-SameUsage e (sem_open arg) d =
    opens-Ends (SameUsage d) (ipc_sem_create e) arg d refl (λ param. refl)
ipc_device_ioctl-SameUsage e (sem_lock arg) d =
    uses d arg (λ param. use_entry sems e param.handle (lock_sem param.timeout) d.sem_list)
      (λ x. (x.0, put_sems d x.1)) (λ x. refl)
ipc_device_ioctl-SameUsage e (sem_unlock arg) d =
    uses d arg (λ param. use_entry sems e param.handle unlock_sem d.sem_list)
      (λ x. (x.0, put_sems d x.1)) (λ x. refl)
ipc_device_ioctl-SameUsage e (sem_close arg) d =
    uses d arg (λ param. close_entry sems e param.handle d.sem_list) (λ x. (x.0, put_sems d x.1))
      (λ x. refl)
ipc_device_ioctl-SameUsage e (mutex_open arg) d =
    opens-Ends (SameUsage d) (ipc_mutex_create e) arg d refl (λ param. refl)
ipc_device_ioctl-SameUsage e (mutex_lock arg) d =
    uses d arg (λ param. use_entry mutexes e param.handle (lock_mutex e param) d.mutex_list)
      (λ x. (x.0, put_mutexes d x.1)) (λ x. refl)
ipc_device_ioctl-SameUsage e (mutex_unlock arg) d =
    uses d arg (λ param. use_entry mutexes e param.handle (unlock_mutex param) d.mutex_list)
      (λ x. (x.0, put_mutexes d x.1)) (λ x. refl)
ipc_device_ioctl-SameUsage e (mutex_close arg) d = elim (Option-cases arg.readable) [
  | inl missing ↦ rw missing refl
  | inr (param, read) ↦ rw read (closing d (close_entry mutexes e param.handle d.mutex_list))
]
ipc_device_ioctl-SameUsage e (event_open arg) d =
    opens-Ends (SameUsage d) (ipc_event_create e) arg d refl (λ param. refl)
ipc_device_ioctl-SameUsage e (event_lock arg) d =
    uses d arg (λ param. use_entry events e param.handle (lock_event param.timeout) d.event_list)
      (λ x. (x.0, put_events d x.1)) (λ x. refl)
ipc_device_ioctl-SameUsage e (event_unlock arg) d =
    uses d arg (λ param. use_entry events e param.handle unlock_event d.event_list)
      (λ x. (x.0, put_events d x.1)) (λ x. refl)
ipc_device_ioctl-SameUsage e (event_reset arg) d =
    uses d arg (λ param. use_entry events e param.handle reset_event d.event_list)
      (λ x. (x.0, put_events d x.1)) (λ x. refl)
ipc_device_ioctl-SameUsage e (event_close arg) d =
    uses d arg (λ param. close_entry events e param.handle d.event_list)
      (λ x. (x.0, put_events d x.1)) (λ x. refl)
ipc_device_ioctl-SameUsage e (shm_open arg) d =
    opens-Ends (SameUsage d) (ipc_shm_open e) arg d refl (λ param. refl)
ipc_device_ioctl-SameUsage e (shm_close arg) d =
    uses d arg (λ param. close_entry shms e param.handle d.shm_list) (λ x. (x.0, put_shms d x.1))
      (λ x. refl)
ipc_device_ioctl-SameUsage e unknown d = refl

pub close_everything-eq : (d : Driver) → close_everything d ≡ no_entries d.usage
unfolding ipc_sem_close_all ipc_mutex_close_all ipc_event_close_all ipc_shm_close_all
close_everything-eq d =
    rw
      (
        close_all-empty sems d.sem_list,
        close_all-empty mutexes d.mutex_list,
        close_all-empty events d.event_list,
        close_all-empty shms d.shm_list,
      )
      refl

ipc_device_close-usage : (d : Driver) → (ipc_device_close d).1.usage ≡ atomic_dec d.usage
unfolding ipc_device_close
ipc_device_close-usage d = elim (Bool-cases (atomic_dec d.usage == 0)) [
  | inl last ↦ rw (last, close_everything-eq (record d { usage = atomic_dec d.usage })) refl
  | inr more ↦ rw more refl
]

-- The driver counts the open files, up to the counter's 32 bits.
pub Files-usage : {d : Driver} {n : ℕ} → Files d n → d.usage ≡ n % 2 ^ 32
unfolding ipc_device_open
Files-usage loaded = refl
Files-usage (opened files) = omega (arith, Files-usage files)
Files-usage (closed {d} {n} files) = omega (arith, Files-usage files, ipc_device_close-usage d)
Files-usage (asked e r {d} {d'} files run) =
    subst (Ends (λ (x : Answer × Driver). SameUsage d x.1)) run (ipc_device_ioctl-SameUsage e r d)
    ∙ Files-usage files

ipc_device_close-last :
    (d : Driver) → atomic_dec d.usage ≡ 0 → (ipc_device_close d).1 ≡ no_entries 0
unfolding ipc_device_close
ipc_device_close-last d last = rw (last, close_everything-eq (record d { usage = 0 })) refl

-- Whatever programs ask for and leave open, fair or not: when as many files have been closed as were
-- opened since the driver was loaded, it is as it was then, with no entry in any table.
pub Files-none : {d : Driver} → Files d 0 → d ≡ no_entries 0
Files-none loaded = refl
Files-none (closed {d} files) = ipc_device_close-last d (omega (arith, Files-usage files))
