-- ===== src/Linux/Calls/Deleting.antt =====
-- What the calls that delete an object return on Linux while other programs still have it open.
use gipcy.Base.{
  ◌+◌, ◌≡◌, refl, ap, ◌∙◌, ℤ, pos, neg, is_neg, true, false, Option, some, ◌==◌, if◌then◌else◌,
  Bool-cases, inl, inr, same_text_refl,
}
use gipcy.Driver.Ioctl.{Ptr, null}
use gipcy.Driver.Table.Cells.{at}
use gipcy.Client.ShmIpc.{System, ShmObject}
use gipcy.Linux.Objects.{Sem, Shm, Driver}
use gipcy.Linux.Kernel.{Kernel, done, user_handle}
use gipcy.Linux.Entries.Owners.{owners}
use gipcy.Linux.Entries.Closing.{close_cells, close_entry-known, closed_entry}
use gipcy.Linux.SemPart.{sems, put_sems, ipc_sem_close}
use gipcy.Linux.ShmPart.{shms, put_shms, ipc_shm_close}
use gipcy.Linux.Rw.{ioctl_sem_close, ioctl_shm_close}
use gipcy.Linux.Module.{ipc_device_ioctl}
use gipcy.Linux.Safety.{AnyCount, DriverSound}
use gipcy.Linux.Safety.Slots.{sem_slot, shm_slot}
use gipcy.Linux.Calls.{is_open, use_object, ipc_ok, general_error}
use gipcy.Linux.Calls.SemIpc.{ipc_delete_semaphore}
use gipcy.Linux.Calls.ShmIpc.{
  shared_memory_close, after_close, ipc_delete_shared_memory, ipc_unmap_shared_memory,
}
use gipcy.Linux.Calls.Sessions.{ipc_driver_handle-open}

module _ (e : Kernel) (fd : ℤ) (opens : is_open fd ≡ true) (d : Driver) (s : DriverSound d)
    (q : Ptr) where
  shared_memory_close-known :
      (a : Shm)
      → at q d.shm_list ≡ some a
      → shared_memory_close e fd (user_handle q) d
        ≡ done (
          if a.owner_count == 1 then pos 0 else neg 1,
          put_shms d (close_cells shms q a d.shm_list),
        )
  unfolding shared_memory_close ipc_device_ioctl ioctl_shm_close ipc_shm_close
  shared_memory_close-known a there =
      let run =
        close_entry-known shms AnyCount shm_slot.lawful e q a d.shm_list s.shm_table there in
      elim (Bool-cases (a.owner_count == 1)) [
        | inl last ↦ rw (ipc_driver_handle-open fd opens, run, last) refl
        | inr more ↦ rw (ipc_driver_handle-open fd opens, run, more) refl
      ]

  -- In a sound driver, with the device open, let `h` be an object for the shared memory at `q`. Then
  -- IPC_deleteSharedMemory gives up one owner of its name. If it was the last one, the name is taken from
  -- the system, and the call returns IPC_OK or, if that fails, an error. While there are other owners
  -- the name stays, and the call returns IPC_GENERAL_ERROR.
  pub ipc_delete_shared_memory-answers :
      (sys : System) (h : ShmObject) (a : Shm)
      → h.user ≡ user_handle q
      → at q d.shm_list ≡ some a
      → (d' : Driver) × (h' : Option ShmObject) × (ipc_delete_shared_memory e fd sys (some h) d
          ≡ done (
            (
              if a.owner_count == 1
                  then (if is_neg sys.unlinked then (general_error, false) else (ipc_ok, true))
                  else (general_error, false),
              h',
            ),
            d',
          ))
        × (owners shms a.name d'.shm_list + 1 ≡ owners shms a.name d.shm_list)
  unfolding ipc_delete_shared_memory after_close
  ipc_delete_shared_memory-answers sys h a user there =
      let closing =
        ap (λ p. shared_memory_close e fd p d) user ∙ shared_memory_close-known a there in
      let (_, fewer) =
        closed_entry shms AnyCount shm_slot.lawful q a d.shm_list s.shm_table there in
      (
        put_shms d (close_cells shms q a d.shm_list),
        if h.block == null then some h else (ipc_unmap_shared_memory sys (some h)).1,
        elim (Bool-cases (a.owner_count == 1)) [
          | inl last ↦ rw (closing, last) refl
          | inr more ↦ rw (closing, more) refl
        ],
        rw (same_text_refl a.name) at (fewer a.name),
      )

  -- In a sound driver, with the device open: IPC_deleteSemaphore with the handle of the semaphore at `q`
  -- gives up one owner of its name, and returns IPC_OK if it was the last one, and -1 while there are
  -- others.
  pub ipc_delete_semaphore-answers :
      (a : Sem)
      → at q d.sem_list ≡ some a
      → (d' : Driver) × (ipc_delete_semaphore e fd (user_handle q) d
          ≡ done (if a.owner_count == 1 then ipc_ok else neg 1, d'))
        × (owners sems a.name d'.sem_list + 1 ≡ owners sems a.name d.sem_list)
  unfolding ipc_delete_semaphore use_object ipc_device_ioctl ioctl_sem_close ipc_sem_close
  ipc_delete_semaphore-answers a there =
      let run =
        close_entry-known sems AnyCount sem_slot.lawful e q a d.sem_list s.sem_table there in
      let (_, fewer) =
        closed_entry sems AnyCount sem_slot.lawful q a d.sem_list s.sem_table there in
      (
        put_sems d (close_cells sems q a d.sem_list),
        elim (Bool-cases (a.owner_count == 1)) [
          | inl last ↦ rw (ipc_driver_handle-open fd opens, run, last) refl
          | inr more ↦ rw (ipc_driver_handle-open fd opens, run, more) refl
        ],
        rw (same_text_refl a.name) at (fewer a.name),
      )
