-- ===== src/Client/Examples.antt =====
-- The theorems of the client at calls to the driver of Driver/Sample.
use gipcy.Base.{◌≡◌, refl, [], ◌∷◌, ℤ, suc, pos, negsuc, true, none, arith}
use gipcy.Base.Tests.{same_text}
use gipcy.Driver.Machine.{write, world, ok, Returns}
use gipcy.Driver.Struct.{sems, mutexes}
use gipcy.Driver.Table.Spec.{HasRoom, open_cells, open_handle}
use gipcy.Driver.Registry.{RealisedBy}
use gipcy.Driver.Devctl.{Response, error, reply}
use gipcy.Driver.SemPart.Open.{first_sem}
use gipcy.Driver.MutexPart.Open.{first_mutex}
use gipcy.Driver.Sample.{
  env, memory, driver, registry, registry-Realises, taken_sem, set_event, a_free_mutex,
}
use gipcy.Client.Requests.{Link}
use gipcy.Client.Requests.Sent.{Delivers, NeverNegative}
use gipcy.Client.EndToEnd.{
  semaphore_param, mutex_param, ipc_create_semaphore-Realises, ipc_create_mutex-Realises,
  ipc_lock_semaphore-timeout, ipc_delete_event-keeps,
}
use gipcy.Client.SemIpc.{ipc_create_semaphore, ipc_lock_semaphore}
use gipcy.Client.MutexIpc.{ipc_create_mutex, ipc_capture_mutex}
use gipcy.Client.Sessions.{ipc_capture_mutex-timeout}
use gipcy.Driver.Session.{at_moment}
use gipcy.Driver.SessionExamples.{later, taken_world, taken}
use gipcy.Client.EventIpc.{ipc_delete_event}

-- A library that passes errors on as positive numbers, and answers 0 to a reply.
abbrev returned : Response → ℤ
returned (error (pos n)) = pos n
returned (error (negsuc n)) = pos (suc n)
returned (reply h) = pos 0

abbrev pub link : Link
link = record { default = λ request. none; devctl = returned }

pub link-Delivers : Delivers link
link-Delivers = record { goes_on = λ request. refl; succeeds = λ h. refl }

pub link-NeverNegative : NeverNegative link
link-NeverNegative (error (pos n)) = refl
link-NeverNegative (error (negsuc n)) = refl
link-NeverNegative (reply h) = refl

pub free_place : memory 96 ≡ none
unfolding write
free_place = refl

sem_room : HasRoom sems (99 ∷ 10 ∷ []) registry.sem_cells
unfolding HasRoom same_text
sem_room = tt

ipc_create_semaphore-Realises_example :
    Returns
      (λ handle w.
        (handle ≡ open_handle sems (99 ∷ 10 ∷ []) 96 registry.sem_cells)
        × RealisedBy 32767 w (record registry {
          sem_cells =
              open_cells sems
                (99 ∷ 10 ∷ [])
                96
                (first_sem env (semaphore_param (99 ∷ [])))
                registry.sem_cells;
        }))
      (ipc_create_semaphore link env (pos 3) (99 ∷ []) (pos 5) (world memory driver))
ipc_create_semaphore-Realises_example =
    ipc_create_semaphore-Realises link env (pos 3) refl link-Delivers memory driver registry
      registry-Realises (99 ∷ []) (pos 5) (omega arith) sem_room (λ z. ground arith) free_place

mutex_room : HasRoom mutexes (97 ∷ []) registry.mutex_cells
unfolding HasRoom same_text
mutex_room = omega arith

ipc_create_mutex-Realises_example :
    Returns
      (λ handle w.
        (handle ≡ open_handle mutexes (97 ∷ []) 96 registry.mutex_cells)
        × RealisedBy 32767 w (record registry {
          mutex_cells =
              open_cells mutexes
                (97 ∷ [])
                96
                (first_mutex env (mutex_param (97 ∷ []) true))
                registry.mutex_cells;
        }))
      (ipc_create_mutex link env (pos 3) (97 ∷ []) true (world memory driver))
ipc_create_mutex-Realises_example =
    ipc_create_mutex-Realises link env (pos 3) refl link-Delivers memory driver registry
      registry-Realises (97 ∷ []) true (omega arith) mutex_room (λ z. ground arith) free_place

ipc_lock_semaphore-timeout_example :
    ipc_lock_semaphore link env (pos 3) 32 (pos 500) (world memory driver)
    ≡ ok (pos 0) (world memory driver)
ipc_lock_semaphore-timeout_example =
    ipc_lock_semaphore-timeout link env (pos 3) refl link-Delivers memory driver registry
      registry-Realises 32 taken_sem 500 refl refl

ipc_delete_event-keeps_example :
    ipc_delete_event link env (pos 3) 64 (world memory driver) ≡ ok (pos 0) (world memory driver)
ipc_delete_event-keeps_example =
    ipc_delete_event-keeps link env (pos 3) refl link-Delivers memory driver registry
      registry-Realises link-NeverNegative 64 set_event refl

-- A capture of the mutex at 48 that client 7 holds.
ipc_capture_mutex-timeout_example :
    ipc_capture_mutex link (at_moment env later true) (pos 3) 48 (pos 19) taken_world
    ≡ ok (pos 0) taken_world
ipc_capture_mutex-timeout_example =
    ipc_capture_mutex-timeout link (pos 3) refl link-Delivers env memory driver registry
      registry-Realises 48 a_free_mutex refl refl later true 19 link-NeverNegative refl taken
