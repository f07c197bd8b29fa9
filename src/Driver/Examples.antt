-- ===== src/Driver/Examples.antt =====
-- The theorems of the driver on opening, locking, timeouts and requests, at the driver of Sample.
use gipcy.Base.{
  ◌*◌, ◌%◌, ◌^◌, ◌<◌, ℕ, ◌+◌, ◌≡◌, refl, inr, pos, neg, List, [], ◌∷◌, none, some, arith,
}
use gipcy.Driver.Ioctl.{CreateParam, sem_close, lock_param, unlock_param, close_param}
use gipcy.Driver.Machine.{world, Returns, pure, ◌>>=◌, write}
use gipcy.Driver.Struct.{sems, mutexes, events, shms}
use gipcy.Driver.Table.Spec.{open_result, HasRoom, open_cells, open_handle}
use gipcy.Base.Tests.{same_text}
use gipcy.Driver.SemPart.{ipc_sem_create, ipc_sem_lock, ipc_sem_unlock}
use gipcy.Driver.SemPart.Open.{first_sem, ipc_sem_create-Realises}
use gipcy.Driver.SemPart.Lock.{ipc_sem_lock-unlock}
use gipcy.Driver.ShmPart.{ipc_shm_open}
use gipcy.Driver.ShmPart.Open.{first_shm, ipc_shm_open-Realises}
use gipcy.Driver.Timeout.{ms_to_timespec}
use gipcy.Driver.Timeout.Deadline.{instant, ms_to_timespec-exact}
use gipcy.Driver.Devctl.{io_devctl}
use gipcy.Driver.Devctl.Safety.{io_devctl-Safe}
use gipcy.Driver.Registry.{RealisedBy, Safe}
use gipcy.Driver.Sample.{first_sem_entry, env, memory, driver, registry, registry-Realises}

abbrev create_param : List ℕ → CreateParam
create_param name = record { name = name; value = pos 1; flag = pos 0; handle = 0 }

free_place : memory 96 ≡ none
unfolding write
free_place = refl

ipc_sem_create-room : HasRoom sems (97 ∷ []) registry.sem_cells
unfolding HasRoom same_text
ipc_sem_create-room = omega arith

ipc_sem_create-Realises_example :
    Returns
      (λ handle w.
        (handle ≡ open_handle sems (97 ∷ []) 96 registry.sem_cells)
        × RealisedBy 32767 w (record registry {
          sem_cells =
              open_cells sems
                (97 ∷ [])
                96
                (first_sem env (create_param (97 ∷ [])))
                registry.sem_cells;
        }))
      (ipc_sem_create env (some (create_param (97 ∷ []))) (world memory driver))
ipc_sem_create-Realises_example =
    ipc_sem_create-Realises env memory driver registry registry-Realises (create_param (97 ∷ []))
      (omega arith) ipc_sem_create-room (λ z. ground arith) free_place

ipc_mutex_create-room : HasRoom mutexes (99 ∷ []) registry.mutex_cells
unfolding HasRoom same_text
ipc_mutex_create-room = tt

ipc_event_create-room : HasRoom events (97 ∷ []) registry.event_cells
unfolding HasRoom same_text
ipc_event_create-room = omega arith

ipc_shm_open-room : HasRoom shms (99 ∷ []) registry.shm_cells
unfolding HasRoom same_text
ipc_shm_open-room = tt

ipc_shm_open-Realises_example :
    Returns
      (λ handle w.
        (handle ≡ open_handle shms (99 ∷ []) 96 registry.shm_cells)
        × RealisedBy 32767 w (record registry {
          shm_cells =
              open_cells shms
                (99 ∷ [])
                96
                (first_shm env (create_param (99 ∷ [])))
                registry.shm_cells;
        }))
      (ipc_shm_open env (some (create_param (99 ∷ []))) (world memory driver))
ipc_shm_open-Realises_example =
    ipc_shm_open-Realises env memory driver registry registry-Realises (create_param (99 ∷ []))
      (omega arith) ipc_shm_open-room (λ z. ground arith) free_place

ipc_sem_lock-unlock_example :
    Returns
      (λ (x, y) w. (x ≡ pos 0) × (y ≡ pos 0) × RealisedBy 32767 w registry)
      ((ipc_sem_lock env (some (lock_param 16 (neg 1))) >>= λ x.
          ipc_sem_unlock env (some (unlock_param 16)) >>= λ y. pure (x, y))
        (world memory driver))
ipc_sem_lock-unlock_example =
    ipc_sem_lock-unlock env memory driver registry registry-Realises 16 first_sem_entry refl (neg 1)
      (omega arith) (omega arith) (omega arith)

ms_to_timespec-exact_example :
    (instant (ms_to_timespec env 1500) ≡ instant env.now + 1500 * 1_000_000)
    × ((ms_to_timespec env 1500).nsec ≡ env.now.nsec + 1500 % 1000 * 1_000_000)
ms_to_timespec-exact_example = ms_to_timespec-exact env 1500 (omega arith) (omega arith)

io_devctl-Safe_example :
    Safe 32767 (io_devctl env none (sem_close (close_param 16)) (world memory driver))
io_devctl-Safe_example =
    io_devctl-Safe env memory driver registry registry-Realises (sem_close (close_param 16))
      (inr (first_sem_entry, refl))

again_room : HasRoom sems (99 ∷ []) registry.sem_cells
unfolding HasRoom same_text
again_room = tt

again_more :
    (open_result sems
        (99 ∷ [])
        (first_sem env (create_param (99 ∷ [])))
        registry.sem_cells).owner_count
      + 1
    < 2 ^ 32
unfolding open_result same_text first_sem
again_more = omega arith
