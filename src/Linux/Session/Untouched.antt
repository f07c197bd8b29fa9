-- ===== src/Linux/Session/Untouched.antt =====
-- Which requests to the Linux driver leave a mutex as it is: all but those on the mutex itself.
use mathlib.Core.Path.{subst}
use gipcy.Base.{
  ◌≡◌, refl, ap, ◌∙◌, ◌≢◌, inl, inr, ℤ, List, some, arith, ◌==◌, Bool-cases, Option-cases,
}
use gipcy.Driver.Ioctl.{Ptr, null, Name}
use gipcy.Driver.Table.Cells.{at, replace, at-replace}
use gipcy.Linux.Ioctl.{
  UserArg, Request, sem_open, sem_lock, sem_unlock, sem_close, mutex_open, mutex_lock, mutex_unlock,
  mutex_close, event_open, event_lock, event_unlock, event_reset, event_close, shm_open, shm_close,
  unknown, invalid,
}
use gipcy.Linux.Objects.{Mutex, Driver}
use gipcy.Linux.Kernel.{Kernel, Ran, done, waits, oops, ◌>>=◌, container_of}
use gipcy.Linux.Entries.{find_entry, add_owner, open_entry, close_entry, use_entry}
use gipcy.Linux.Entries.Sound.{Sound, at-find_entry}
use gipcy.Linux.Entries.Steps.{Harmless, check-cases}
use gipcy.Linux.SemPart.{
  sems, put_sems, lock_sem, unlock_sem, ipc_sem_create, ipc_sem_lock, ipc_sem_unlock, ipc_sem_close,
}
use gipcy.Linux.MutexPart.{
  mutexes, new_mutex, lock_mutex, unlock_mutex, put_mutexes, ipc_mutex_create, ipc_mutex_lock,
  ipc_mutex_unlock, ipc_mutex_close,
}
use gipcy.Linux.EventPart.{
  events, put_events, lock_event, unlock_event, reset_event, ipc_event_create, ipc_event_lock,
  ipc_event_unlock, ipc_event_reset, ipc_event_close,
}
use gipcy.Linux.ShmPart.{shms, put_shms, ipc_shm_open, ipc_shm_close}
use gipcy.Linux.Rw.{
  Answer, answer, close_result, opens, serves, ioctl_sem_open, ioctl_sem_lock, ioctl_sem_unlock,
  ioctl_sem_close, ioctl_mutex_open, ioctl_mutex_lock, ioctl_mutex_unlock, ioctl_mutex_close,
  ioctl_event_open, ioctl_event_lock, ioctl_event_unlock, ioctl_event_reset, ioctl_event_close,
  ioctl_shm_open, ioctl_shm_close,
}
use gipcy.Linux.Module.{ipc_device_ioctl}
use gipcy.Linux.Safety.{DriverSound, OneLocker, Fair, Given}
use gipcy.Linux.Session.{Elsewhere}
use gipcy.Linux.Session.Frame.{
  Ends, Ends-any, Ends-then, serves-Ends, opens-Ends, at-replace_other, at-append, at-close_loop,
}

-- The mutex at `q` is still there, with the same locker and count.
abbrev pub Keeps : Ptr → List (Ptr × Mutex) → List (Ptr × Mutex) → Type 0
Keeps q cs cs' =
    (s : Mutex)
    → at q cs ≡ some s
    → (b : Mutex) × (at q cs' ≡ some b) × (b.lockerid ≡ s.lockerid) × (b.mutex ≡ s.mutex)

stay : (q : Ptr) (cs : List (Ptr × Mutex)) → Keeps q cs cs
stay q cs s e = (s, e, refl, refl)

still : (q : Ptr) (cs cs' : List (Ptr × Mutex)) → at q cs' ≡ at q cs → Keeps q cs cs'
still q cs cs' same s e = (s, same ∙ e, refl, refl)

open_entry-Keeps :
    (q : Ptr) (e : Kernel) (name : Name) (init : Ptr → Mutex) (cs : List (Ptr × Mutex))
    → Sound mutexes OneLocker cs
    → Keeps q cs (open_entry mutexes e name init cs).1
unfolding open_entry
open_entry-Keeps q e name init cs sound s there = elim (Option-cases (find_entry mutexes name cs)) [
  | inr ((p, a), found) ↦
      let (at_p, _) = at-find_entry mutexes OneLocker name cs sound found in
      rw (found, open_entry)
        (elim (Bool-cases (p == q)) [
          | inl same ↦
              let pq : p ≡ q = ground arith in
              let b = add_owner mutexes a in
              let a_is : a ≡ s = cc in
              (
                b,
                subst (λ x. at x (replace p b cs) ≡ some b) pq (at-replace p a b cs at_p),
                ap (λ (m : Mutex). m.lockerid) a_is,
                ap (λ (m : Mutex). m.mutex) a_is,
              )
          | inr apart ↦ (s, at-replace_other mutexes q p _ cs (ground arith) ∙ there, refl, refl)
        ])
  | inl absent ↦ elim (Option-cases e.allocated) [
    | inl no_memory ↦ rw (absent, no_memory, open_entry) (s, there, refl, refl)
    | inr (p, memory) ↦
        rw (absent, memory, open_entry) (s, at-append mutexes q p _ s cs there, refl, refl)
  ]
]

use_entry-Keeps :
    (q : Ptr) (e : Kernel) (h : Ptr) (act : Mutex → Ran (ℤ × Mutex)) (cs : List (Ptr × Mutex))
    → Sound mutexes OneLocker cs
    → Harmless mutexes OneLocker e h cs
    → container_of h ≢ q
    → Ends (λ (x : ℤ × List (Ptr × Mutex)). Keeps q cs x.1) (use_entry mutexes e h act cs)
unfolding use_entry
use_entry-Keeps q e h act cs sound harmless ne = elim (Bool-cases (h == null)) [
  | inl zero_handle ↦ rw zero_handle (stay q cs)
  | inr other ↦ rw other (elim (check-cases mutexes OneLocker e h cs sound harmless) [
    | inl (_, found) ↦ rw found (stay q cs)
    | inr (a, _, found) ↦ rw found (
        Ends-any (λ (x : ℤ × List (Ptr × Mutex)). Keeps q cs x.1) (act a) _
          (λ x. still q cs _ (at-replace_other mutexes q (container_of h) x.1 cs ne)))
  ])
]

close_entry-Keeps :
    (q : Ptr) (e : Kernel) (h : Ptr) (cs : List (Ptr × Mutex))
    → Sound mutexes OneLocker cs
    → Harmless mutexes OneLocker e h cs
    → container_of h ≢ q
    → Ends (λ (x : ℤ × List (Ptr × Mutex)). Keeps q cs x.1) (close_entry mutexes e h cs)
unfolding close_entry
close_entry-Keeps q e h cs sound harmless ne = elim (Bool-cases (h == null)) [
  | inl zero_handle ↦ rw zero_handle (stay q cs)
  | inr other ↦ rw other (elim (check-cases mutexes OneLocker e h cs sound harmless) [
    | inl (_, found) ↦ rw found (stay q cs)
    | inr (a, _, found) ↦
        rw found (still q cs _ (at-close_loop mutexes q (container_of h) invalid cs ne))
  ])
]

abbrev KeepsMutex : Ptr → Driver → Driver → Type 0
KeepsMutex q d d' = Keeps q d.mutex_list d'.mutex_list

module _ (q : Ptr) (e : Kernel) (d : Driver) where
  -- A request on another table, which puts back only that table.
  elsewhere :
      {A X : Type 0} (run : A → Driver → Ran (ℤ × Driver)) (arg : UserArg A) (m : A → Ran X)
      (put : X → ℤ × Driver)
      → ((param : A) → run param d ≡ (m param >>= λ x. done (put x)))
      → ((x : X) → (put x).1.mutex_list ≡ d.mutex_list)
      → Ends (λ (x : Answer × Driver). KeepsMutex q d x.1) (serves run arg d)
  elsewhere run arg m put is same =
      serves-Ends (KeepsMutex q d) run arg d (stay q d.mutex_list) (λ param read. rw (is param) (
        Ends-any (λ (x : ℤ × Driver). KeepsMutex q d x.1) (m param) put
          (λ x. rw (same x) (stay q d.mutex_list))))

  module _ (s : DriverSound d) where
    -- A request that uses, or closes, another mutex.
    other_mutex :
        {A : Type 0} (run : A → Driver → Ran (ℤ × Driver)) (arg : UserArg A)
        (m : A → Ran (ℤ × List (Ptr × Mutex)))
        → ((param : A) → run param d ≡ (m param >>= λ x. done (x.0, put_mutexes d x.1)))
        → ((param : A) → arg.readable ≡ some param → Ends (λ x. Keeps q d.mutex_list x.1) (m param))
        → Ends (λ (x : Answer × Driver). KeepsMutex q d x.1) (serves run arg d)
    other_mutex run arg m is kept =
        serves-Ends (KeepsMutex q d) run arg d (stay q d.mutex_list) (λ param read. rw (is param) (
          Ends-then _ (λ (x : ℤ × Driver). KeepsMutex q d x.1) (m param) _ (kept param read)
            (λ x k. k)))

  abbrev closed_mutexes : ℤ × List (Ptr × Mutex) → Ran (ℤ × Driver)
  closed_mutexes x = done (x.0, put_mutexes d x.1)

  abbrev answered : ℤ × Driver → Ran (Answer × Driver)
  answered x = done (answer (close_result x.0), x.1)

  close_kept :
      (m : Ran (ℤ × List (Ptr × Mutex)))
      → Ends (λ x. Keeps q d.mutex_list x.1) m
      → Ends
          (λ (x : Answer × Driver). KeepsMutex q d x.1)
          ((m >>= λ x. closed_mutexes x) >>= λ (x : ℤ × Driver). answered x)
  close_kept (done x) k = k
  close_kept waits k = tt
  close_kept oops k = tt

  -- Whatever a fair request asks for, but to capture, release or close the mutex at `q`.
  pub ipc_device_ioctl-Keeps :
      (r : Request)
      → DriverSound d
      → Fair e d r
      → Elsewhere q r
      → Ends (λ (x : Answer × Driver). KeepsMutex q d x.1) (ipc_device_ioctl e r d)
  unfolding ipc_device_ioctl ioctl_sem_open ioctl_sem_lock ioctl_sem_unlock ioctl_sem_close
      ioctl_mutex_open ioctl_mutex_lock ioctl_mutex_unlock ioctl_mutex_close ioctl_event_open
      ioctl_event_lock ioctl_event_unlock ioctl_event_reset ioctl_event_close ioctl_shm_open
      ioctl_shm_close ipc_sem_create ipc_sem_lock ipc_sem_unlock ipc_sem_close ipc_mutex_create
      ipc_mutex_lock ipc_mutex_unlock ipc_mutex_close ipc_event_create ipc_event_lock
      ipc_event_unlock ipc_event_reset ipc_event_close ipc_shm_open ipc_shm_close
  ipc_device_ioctl-Keeps (sem_open arg) s f away =
      opens-Ends (KeepsMutex q d) (ipc_sem_create e) arg d (stay q _) (λ param. stay q _)
  ipc_device_ioctl-Keeps (sem_lock arg) s f away =
      elsewhere (ipc_sem_lock e) arg
        (λ param. use_entry sems e param.handle (lock_sem param.timeout) d.sem_list)
        (λ x. (x.0, put_sems d x.1)) (λ param. refl) (λ x. refl)
  ipc_device_ioctl-Keeps (sem_unlock arg) s f away =
      elsewhere (ipc_sem_unlock e) arg
        (λ param. use_entry sems e param.handle unlock_sem d.sem_list) (λ x. (x.0, put_sems d x.1))
        (λ param. refl) (λ x. refl)
  ipc_device_ioctl-Keeps (sem_close arg) s f away =
      elsewhere (ipc_sem_close e) arg (λ param. close_entry sems e param.handle d.sem_list)
        (λ x. (x.0, put_sems d x.1)) (λ param. refl) (λ x. refl)
  ipc_device_ioctl-Keeps (mutex_open arg) s f away = elim (Option-cases arg.readable) [
    | inl missing ↦ rw (missing, opens) (stay q _)
    | inr (param, read) ↦
        rw (read, opens)
          (open_entry-Keeps q e param.name (new_mutex param) d.mutex_list s.mutex_table)
  ]
  ipc_device_ioctl-Keeps (mutex_lock arg) s f away =
      other_mutex s (ipc_mutex_lock e) arg
        (λ param. use_entry mutexes e param.handle (lock_mutex e param) d.mutex_list)
        (λ param. refl)
        (λ param read.
          let (harmless, _, _) = rw (read, Given) at f in
          use_entry-Keeps q e param.handle (lock_mutex e param) d.mutex_list s.mutex_table harmless
            (rw (read, Elsewhere, Given) at away))
  ipc_device_ioctl-Keeps (mutex_unlock arg) s f away =
      other_mutex s (ipc_mutex_unlock e) arg
        (λ param. use_entry mutexes e param.handle (unlock_mutex param) d.mutex_list)
        (λ param. refl)
        (λ param read.
          let (harmless, _) = rw (read, Given) at f in
          use_entry-Keeps q e param.handle (unlock_mutex param) d.mutex_list s.mutex_table harmless
            (rw (read, Elsewhere, Given) at away))
  ipc_device_ioctl-Keeps (mutex_close arg) s f away = elim (Option-cases arg.readable) [
    | inl missing ↦ rw missing (stay q _)
    | inr (param, read) ↦ rw read (
        close_kept (close_entry mutexes e param.handle d.mutex_list) (
          close_entry-Keeps q e param.handle d.mutex_list s.mutex_table (rw (read, Given) at f)
            (rw (read, Elsewhere, Given) at away)))
  ]
  ipc_device_ioctl-Keeps (event_open arg) s f away =
      opens-Ends (KeepsMutex q d) (ipc_event_create e) arg d (stay q _) (λ param. stay q _)
  ipc_device_ioctl-Keeps (event_lock arg) s f away =
      elsewhere (ipc_event_lock e) arg
        (λ param. use_entry events e param.handle (lock_event param.timeout) d.event_list)
        (λ x. (x.0, put_events d x.1)) (λ param. refl) (λ x. refl)
  ipc_device_ioctl-Keeps (event_unlock arg) s f away =
      elsewhere (ipc_event_unlock e) arg
        (λ param. use_entry events e param.handle unlock_event d.event_list)
        (λ x. (x.0, put_events d x.1)) (λ param. refl) (λ x. refl)
  ipc_device_ioctl-Keeps (event_reset arg) s f away =
      elsewhere (ipc_event_reset e) arg
        (λ param. use_entry events e param.handle reset_event d.event_list)
        (λ x. (x.0, put_events d x.1)) (λ param. refl) (λ x. refl)
  ipc_device_ioctl-Keeps (event_close arg) s f away =
      elsewhere (ipc_event_close e) arg (λ param. close_entry events e param.handle d.event_list)
        (λ x. (x.0, put_events d x.1)) (λ param. refl) (λ x. refl)
  ipc_device_ioctl-Keeps (shm_open arg) s f away =
      opens-Ends (KeepsMutex q d) (ipc_shm_open e) arg d (stay q _) (λ param. stay q _)
  ipc_device_ioctl-Keeps (shm_close arg) s f away =
      elsewhere (ipc_shm_close e) arg (λ param. close_entry shms e param.handle d.shm_list)
        (λ x. (x.0, put_shms d x.1)) (λ param. refl) (λ x. refl)
  ipc_device_ioctl-Keeps unknown s f away = stay q _
