-- ===== src/Driver/ClosingExamples.antt =====
-- The theorems of the driver on closing, at the driver of Sample.
use gipcy.Base.{◌≡◌, refl, pos, some}
use gipcy.Driver.Ioctl.{lock_param, close_param}
use gipcy.Driver.Machine.{world, fault, Returns, ◌>>=◌}
use gipcy.Driver.Struct.{sems}
use gipcy.Driver.Table.Spec.{close_cells, close_result}
use gipcy.Driver.SemPart.{ipc_sem_lock, ipc_sem_close}
use gipcy.Driver.SemPart.Close.{ipc_sem_close-Realises, ipc_sem_lock-closed}
use gipcy.Driver.Registry.{RealisedBy}
use gipcy.Driver.Sample.{
  first_sem_entry, taken_sem, env, memory, driver, registry, registry-Realises,
}

ipc_sem_lock-closed_example :
    (ipc_sem_close env (some (close_param 16)) >>= λ _.
    ipc_sem_lock env (some (lock_param 16 (pos 0))))
      (world memory driver)
    ≡ fault
ipc_sem_lock-closed_example =
    ipc_sem_lock-closed env memory driver registry registry-Realises 16 first_sem_entry (pos 0) refl
      refl

ipc_sem_close-Realises_example :
    Returns
      (λ x w.
        (x ≡ close_result sems 32 registry.sem_cells)
        × RealisedBy 32767 w
            (record registry { sem_cells = close_cells sems 32 registry.sem_cells }))
      (ipc_sem_close env (some (close_param 32)) (world memory driver))
ipc_sem_close-Realises_example =
    ipc_sem_close-Realises env memory driver registry registry-Realises 32 taken_sem refl
