-- ===== src/Linux/Module/Copying.antt =====
-- linux/ipcdrv/ioctlrw.c when the structure of a program cannot be written, or no memory is left.
use gipcy.Base.{◌≡◌, refl, pos, true, false, Bool, List, none, some, ◌==◌, if◌then◌else◌}
use gipcy.Driver.Ioctl.{Ptr, null, Name}
use gipcy.Linux.Ioctl.{
  CreateParam, UserArg, Request, sem_open, mutex_open, event_open, shm_open, invalid, bad_address,
}
use gipcy.Linux.Objects.{Driver}
use gipcy.Linux.Kernel.{Kernel, done, user_handle}
use gipcy.Linux.Entries.{Kind, find_entry, open_entry}
use gipcy.Linux.SemPart.{sems, new_sem, ipc_sem_create}
use gipcy.Linux.MutexPart.{mutexes, new_mutex, ipc_mutex_create}
use gipcy.Linux.EventPart.{events, new_event, ipc_event_create}
use gipcy.Linux.ShmPart.{shms, new_shm, ipc_shm_open}
use gipcy.Linux.Rw.{
  answer, copy_back, ioctl_sem_open, ioctl_mutex_open, ioctl_event_open, ioctl_shm_open,
}
use gipcy.Linux.Module.{ipc_device_ioctl}

-- The argument of an opening.
abbrev pub arg_of : CreateParam → Bool → UserArg CreateParam
arg_of param writable = record { readable = some param; writable = writable }

-- The four openings.
pub data Opening : (UserArg CreateParam → Request) → Type 0 where
  opens_sem : Opening sem_open
  opens_mutex : Opening mutex_open
  opens_event : Opening event_open
  opens_memory : Opening shm_open

-- What an opening leaves in the driver does not depend on whether its answer can be copied back: one
-- that cannot is answered -EFAULT, and the owner that it added stays, although the program did not get
-- the handle that it would need to close it.
pub Opening-unwritable :
    {req : UserArg CreateParam → Request} (o : Opening req) (e : Kernel) (d : Driver)
    (param : CreateParam)
    → (d' : Driver) × (h : Ptr) × (ipc_device_ioctl e (req (arg_of param true)) d
        ≡ done (copy_back (arg_of param true) param h, d'))
      × (ipc_device_ioctl e (req (arg_of param false)) d
          ≡ done (if h == null then answer invalid else answer bad_address, d'))
unfolding ipc_device_ioctl ioctl_sem_open ioctl_mutex_open ioctl_event_open ioctl_shm_open
Opening-unwritable opens_sem e d param =
    ((ipc_sem_create e param d).1, (ipc_sem_create e param d).0, refl, refl)
Opening-unwritable opens_mutex e d param =
    ((ipc_mutex_create e param d).1, (ipc_mutex_create e param d).0, refl, refl)
Opening-unwritable opens_event e d param =
    ((ipc_event_create e param d).1, (ipc_event_create e param d).0, refl, refl)
Opening-unwritable opens_memory e d param =
    ((ipc_shm_open e param d).1, (ipc_shm_open e param d).0, refl, refl)

-- If there is no entry with the name and no memory for a new one.
module _ {A : Type 0} (K : Kind A) (e : Kernel) (name : Name) (init : Ptr → A) (cs : List (Ptr × A))
    (absent : find_entry K name cs ≡ none) (full : e.allocated ≡ none) where
  open_entry-full : open_entry K e name init cs ≡ (user_handle null, cs)
  unfolding open_entry
  open_entry-full = rw (absent, full, open_entry) refl

abbrev pub Unnamed : {A : Type 0} → Kind A → Name → List (Ptr × A) → Type 0
Unnamed K name cs = find_entry K name cs ≡ none

-- The name has no entry in the table of the opening.
abbrev pub Absent : {req : UserArg CreateParam → Request} → Opening req → Name → Driver → Type 0
Absent opens_sem name d = Unnamed sems name d.sem_list
Absent opens_mutex name d = Unnamed mutexes name d.mutex_list
Absent opens_event name d = Unnamed events name d.event_list
Absent opens_memory name d = Unnamed shms name d.shm_list

-- An opening of a new name for which `kzalloc` has no memory is answered with success and changes
-- nothing: the test for a null handle does not see it, since the address of the handle field in a
-- structure at NULL is not NULL.
pub Opening-full :
    {req : UserArg CreateParam → Request} (o : Opening req) (e : Kernel) (d : Driver)
    (param : CreateParam)
    → Absent o param.name d
    → e.allocated ≡ none
    → ipc_device_ioctl e (req (arg_of param true)) d
      ≡ done
          (record { error = pos 0; written = some (record param { handle = user_handle null }) }, d)
unfolding ipc_device_ioctl ioctl_sem_open ioctl_mutex_open ioctl_event_open ioctl_shm_open
    ipc_sem_create ipc_mutex_create ipc_event_create ipc_shm_open
Opening-full opens_sem e d param absent full =
    rw (open_entry-full sems e param.name (new_sem param) d.sem_list absent full) refl
Opening-full opens_mutex e d param absent full =
    rw (open_entry-full mutexes e param.name (new_mutex param) d.mutex_list absent full) refl
Opening-full opens_event e d param absent full =
    rw (open_entry-full events e param.name (new_event param) d.event_list absent full) refl
Opening-full opens_memory e d param absent full =
    rw (open_entry-full shms e param.name (new_shm param) d.shm_list absent full) refl
