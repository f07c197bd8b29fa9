-- ===== src/Linux/Safety/Requests/Served.antt =====
-- The invariant of the Linux driver, for every command of `ipc_device_ioctl`.
use gipcy.Base.{
  ◌≡◌, refl, ◌≢◌, inl, inr, ℤ, pos, length, take-eq_self, ◌≤◌, Bool-cases, Option-cases,
}
use gipcy.Driver.Ioctl.{Ptr}
use gipcy.Linux.Ioctl.{
  CreateParam, CloseParam, UserArg, Request, sem_open, sem_lock, sem_unlock, sem_close, mutex_open,
  mutex_lock, mutex_unlock, mutex_close, event_open, event_lock, event_unlock, event_reset,
  event_close, shm_open, shm_close, unknown,
}
use gipcy.Linux.Objects.{Driver, mutex_id}
use gipcy.Linux.Entries.Steps.{Harmless}
use gipcy.Linux.Entries.Closing.{closed}
use gipcy.Linux.Kernel.{Kernel, Answers}
use gipcy.Linux.SemPart.{
  new_sem, lock_sem, unlock_sem, ipc_sem_create, ipc_sem_lock, ipc_sem_unlock, ipc_sem_close,
}
use gipcy.Linux.MutexPart.{
  mutexes, same_int, new_mutex, lock_mutex, unlock_mutex, ipc_mutex_create, ipc_mutex_lock,
  ipc_mutex_unlock, ipc_mutex_close,
}
use gipcy.Linux.EventPart.{
  new_event, lock_event, unlock_event, reset_event, ipc_event_create, ipc_event_lock,
  ipc_event_unlock, ipc_event_reset, ipc_event_close,
}
use gipcy.Linux.ShmPart.{new_shm, ipc_shm_open, ipc_shm_close}
use gipcy.Linux.Rw.{
  Answer, ioctl_sem_open, ioctl_sem_lock, ioctl_sem_unlock, ioctl_sem_close, ioctl_mutex_open,
  ioctl_mutex_lock, ioctl_mutex_unlock, ioctl_mutex_close, ioctl_event_open, ioctl_event_lock,
  ioctl_event_unlock, ioctl_event_reset, ioctl_event_close, ioctl_shm_open, ioctl_shm_close,
}
use gipcy.Linux.Module.{ipc_device_ioctl}
use gipcy.Linux.Safety.{
  DriverSound, OneLocker, Fair, Given, given, nothing, gained, lost, only, mutexes_part,
}
use gipcy.Linux.Safety.Slots.{sem_slot, mutex_slot, event_slot, shm_slot}
use gipcy.Linux.Safety.Acts.{
  lock_sem-Kept, unlock_sem-Kept, lock_event-Kept, unlock_event-Kept, reset_event-eq,
  lock_mutex-Kept, unlock_mutex-Kept,
}
use gipcy.Linux.Safety.Requests.{
  Answers-then, Moves, stays, uses-Moves, use-Moves, close-Moves, open-Moves, serves-Moves,
  opens-Moves,
}

-- A new mutex is free, or belongs to the locker that asked for it.
new_mutex-OneLocker :
    (param : CreateParam) (q : Ptr)
    → length param.name ≤ 127
    → param.lockerid ≢ pos 0
    → ((new_mutex param q).name ≡ param.name)
      × ((new_mutex param q).id ≡ mutex_id)
      × ((new_mutex param q).owner_count ≡ 0)
      × OneLocker (new_mutex param q)
new_mutex-OneLocker param q short ne =
    let cut = take-eq_self 127 param.name short in
    elim (Bool-cases (same_int param.value (pos 0))) [
      | inl free ↦ rw free (cut, refl, refl, inl (refl, refl, refl))
      | inr locked ↦ rw locked (cut, refl, refl, inr (refl, ne, refl))
    ]

ioctl_mutex_close-Moves :
    (e : Kernel) (arg : UserArg CloseParam) (d : Driver)
    → DriverSound d
    → Fair e d (mutex_close arg)
    → Answers
        (λ (x : Answer × Driver). Moves d (lost d (mutex_close arg)) nothing x.1)
        (ioctl_mutex_close e arg d)
unfolding ioctl_mutex_close ipc_mutex_close
ioctl_mutex_close-Moves e arg d s f = elim (Option-cases arg.readable) [
  | inl unreadable ↦ rw (unreadable, lost, given) (stays d s)
  | inr (param, read) ↦
      rw (read, lost, given)
        (Answers-then _ _ (ipc_mutex_close e param d) _ (closes param (rw (read, Fair, Given) at f))
          (λ x moved. moved))
]
  where
    closes :
        (param : CloseParam)
        → Harmless mutexes OneLocker e param.handle d.mutex_list
        → Answers
            (λ (x : ℤ × Driver).
              Moves d (only mutexes_part (closed mutexes param.handle d.mutex_list)) nothing x.1)
            (ipc_mutex_close e param d)
    closes param harmless = close-Moves mutex_slot e d s param.handle harmless

-- From a sound driver and for every fair request: no memory but the entries' is touched, and if the
-- request is answered, the driver is sound, and each name of each table has the owners that it had, one
-- more if the request opened it, and one less if it closed it.
pub ipc_device_ioctl-Moves :
    (e : Kernel) (d : Driver) (r : Request)
    → DriverSound d
    → Fair e d r
    → Answers
        (λ (x : Answer × Driver). Moves d (lost d r) (gained e d r) x.1)
        (ipc_device_ioctl e r d)
unfolding ipc_device_ioctl ioctl_sem_open ioctl_sem_lock ioctl_sem_unlock ioctl_sem_close
    ioctl_mutex_open ioctl_mutex_lock ioctl_mutex_unlock ioctl_event_open ioctl_event_lock
    ioctl_event_unlock ioctl_event_reset ioctl_event_close ioctl_shm_open ioctl_shm_close
    ipc_sem_create ipc_sem_lock ipc_sem_unlock ipc_sem_close ipc_mutex_create ipc_mutex_lock
    ipc_mutex_unlock ipc_event_create ipc_event_lock ipc_event_unlock ipc_event_reset
    ipc_event_close ipc_shm_open ipc_shm_close
ipc_device_ioctl-Moves e d (sem_open arg) s f =
    opens-Moves _ _ (ipc_sem_create e) arg d s f (λ param (short, fresh, room).
      open-Moves sem_slot e d s param.name (new_sem param) fresh room
        (λ q. (take-eq_self 127 param.name short, refl, refl, tt)))
ipc_device_ioctl-Moves e d (sem_lock arg) s f =
    uses-Moves _ (ipc_sem_lock e) arg d s f (λ param harmless.
      use-Moves sem_slot e d s param.handle (lock_sem param.timeout) harmless
        (lock_sem-Kept param.timeout))
ipc_device_ioctl-Moves e d (sem_unlock arg) s f =
    uses-Moves _ (ipc_sem_unlock e) arg d s f
      (λ param harmless. use-Moves sem_slot e d s param.handle unlock_sem harmless unlock_sem-Kept)
ipc_device_ioctl-Moves e d (sem_close arg) s f =
    serves-Moves _ _ (ipc_sem_close e) arg d s f
      (λ param harmless. close-Moves sem_slot e d s param.handle harmless)
ipc_device_ioctl-Moves e d (mutex_open arg) s f =
    opens-Moves _ _ (ipc_mutex_create e) arg d s f (λ param ((short, fresh, room), ne).
      open-Moves mutex_slot e d s param.name (new_mutex param) fresh room
        (λ q. new_mutex-OneLocker param q short ne))
ipc_device_ioctl-Moves e d (mutex_lock arg) s f =
    uses-Moves _ (ipc_mutex_lock e) arg d s f (λ param (harmless, ne, calm).
      use-Moves mutex_slot e d s param.handle (lock_mutex e param) harmless
        (λ p a. lock_mutex-Kept e param p a ne calm))
ipc_device_ioctl-Moves e d (mutex_unlock arg) s f =
    uses-Moves _ (ipc_mutex_unlock e) arg d s f (λ param (harmless, ne).
      use-Moves mutex_slot e d s param.handle (unlock_mutex param) harmless
        (λ p a. unlock_mutex-Kept param p a ne))
ipc_device_ioctl-Moves e d (mutex_close arg) s f = ioctl_mutex_close-Moves e arg d s f
ipc_device_ioctl-Moves e d (event_open arg) s f =
    opens-Moves _ _ (ipc_event_create e) arg d s f (λ param (short, fresh, room).
      open-Moves event_slot e d s param.name (new_event param) fresh room
        (λ q. (take-eq_self 127 param.name short, refl, refl, refl)))
ipc_device_ioctl-Moves e d (event_lock arg) s f =
    uses-Moves _ (ipc_event_lock e) arg d s f (λ param harmless.
      use-Moves event_slot e d s param.handle (lock_event param.timeout) harmless
        (lock_event-Kept param.timeout))
ipc_device_ioctl-Moves e d (event_unlock arg) s f =
    uses-Moves _ (ipc_event_unlock e) arg d s f (λ param harmless.
      use-Moves event_slot e d s param.handle unlock_event harmless unlock_event-Kept)
ipc_device_ioctl-Moves e d (event_reset arg) s f =
    uses-Moves _ (ipc_event_reset e) arg d s f (λ param harmless.
      use-Moves event_slot e d s param.handle reset_event harmless
        (λ p a is. rw (reset_event-eq a) (unlock_event-Kept p a is)))
ipc_device_ioctl-Moves e d (event_close arg) s f =
    serves-Moves _ _ (ipc_event_close e) arg d s f
      (λ param harmless. close-Moves event_slot e d s param.handle harmless)
ipc_device_ioctl-Moves e d (shm_open arg) s f =
    opens-Moves _ _ (ipc_shm_open e) arg d s f (λ param (short, fresh, room).
      open-Moves shm_slot e d s param.name (new_shm param) fresh room
        (λ q. (take-eq_self 127 param.name short, refl, refl, tt)))
ipc_device_ioctl-Moves e d (shm_close arg) s f =
    serves-Moves _ _ (ipc_shm_close e) arg d s f
      (λ param harmless. close-Moves shm_slot e d s param.handle harmless)
ipc_device_ioctl-Moves e d unknown s f = stays d s
