-- ===== src/Linux/CallExamples.antt =====
-- The calls of a program on Linux, on concrete data.
use gipcy.Base.{
  ℕ, ◌+◌, ◌≡◌, refl, ◌≢◌, ℤ, pos, negsuc, neg, true, false, [], ◌∷◌, Option, some, arith,
}
use gipcy.Client.ShmIpc.{System, ShmObject}
use gipcy.Linux.Objects.{Shm, shm_id, Driver}
use gipcy.Linux.Kernel.{done, waits, user_handle}
use gipcy.Linux.Entries.Sound.{Sound}
use gipcy.Linux.Entries.Owners.{owners}
use gipcy.Linux.ShmPart.{shms}
use gipcy.Linux.Safety.{DriverSound}
use gipcy.Linux.Session.{Among}
use gipcy.Linux.Calls.{ipc_ok, general_error, wait_timeout}
use gipcy.Linux.Calls.MutexIpc.{ipc_capture_mutex}
use gipcy.Linux.Calls.EventIpc.{ipc_set_event, ipc_reset_event, ipc_wait_event}
use gipcy.Linux.Calls.ShmIpc.{ipc_delete_shared_memory}
use gipcy.Linux.Calls.Sessions.{ipc_capture_mutex-answers}
use gipcy.Linux.Calls.Deleting.{ipc_delete_shared_memory-answers}
use gipcy.Linux.Calls.Events.{ipc_reset_event-set, ipc_wait_event-unknown}
use gipcy.Linux.Examples.{
  calm, empty_driver, no_entries-Sound, free_mutex, captured_mutex, with_mutex, with_mutex-Sound,
  seven_holds,
}

ipc_capture_mutex-answers_example :
    ((c : ℤ) (n : ℕ)
      → Among c (pos 7 ∷ [])
      → pos 8 ≢ c
      → (ipc_capture_mutex calm
            (pos 3)
            (pos 8)
            (user_handle 8192)
            (negsuc n)
            (with_mutex captured_mutex)
          ≡ waits)
        × (ipc_capture_mutex calm
              (pos 3)
              (pos 8)
              (user_handle 8192)
              (pos n)
              (with_mutex captured_mutex)
            ≡ done (wait_timeout, with_mutex captured_mutex)))
    × ((t : ℤ)
        → pos 7 ∷ [] ≡ []
        → (d' : Driver) × (ipc_capture_mutex calm
              (pos 3)
              (pos 8)
              (user_handle 8192)
              t
              (with_mutex captured_mutex)
            ≡ done (ipc_ok, d')))
ipc_capture_mutex-answers_example =
    ipc_capture_mutex-answers 8192 (with_mutex free_mutex) with_mutex-Sound free_mutex refl refl
      (pos 3) refl calm (pos 8) seven_holds (λ e. cc) refl

ipc_reset_event-set_example :
    ipc_reset_event calm (pos 3) 0 empty_driver ≡ ipc_set_event calm (pos 3) 0 empty_driver
ipc_reset_event-set_example = ipc_reset_event-set calm (pos 3) 0 empty_driver

-- The handle of the mutex of another example.
ipc_wait_event-unknown_example :
    ipc_wait_event calm (pos 3) (user_handle 8192) (neg 1) empty_driver
    ≡ done (ipc_ok, empty_driver)
ipc_wait_event-unknown_example =
    ipc_wait_event-unknown calm (pos 3) (user_handle 8192) (neg 1) empty_driver refl
      (no_entries-Sound 1) refl (λ absent. (0, refl, λ e. cc))

abbrev shared : Shm
shared = record { name = 120 ∷ []; handle = 4096; owner_count = 2; id = shm_id }

abbrev with_shared : Driver
with_shared = record empty_driver { shm_list = (4096, shared) ∷ [] }

with_shared-Sound : DriverSound with_shared
unfolding Sound
with_shared-Sound = record {
  sem_table = tt;
  mutex_table = tt;
  event_table = tt;
  shm_table = (
    record {
      located = omega arith;
      in_memory = omega arith;
      known_id = refl;
      owned = omega arith;
      in_range = omega arith;
      good = tt;
    },
    refl,
    refl,
    tt,
  );
}

abbrev works : System
works = record {
  allocated = true;
  created = pos 5;
  exists = false;
  reopened = pos 5;
  stat = pos 0;
  st_size = pos 0;
  truncated = pos 0;
  mapped = some 65536;
  unmapped = pos 0;
  unlinked = pos 0;
}

abbrev opened_memory : ShmObject
opened_memory = record {
  name = 47 ∷ 120 ∷ [];
  shm = pos 5;
  block = 0;
  size = 4096;
  user = user_handle 4096;
}

ipc_delete_shared_memory-answers_example :
    (d' : Driver) × (h' : Option ShmObject) × (ipc_delete_shared_memory calm
        (pos 3)
        works
        (some opened_memory)
        with_shared
      ≡ done (((general_error, false), h'), d'))
    × (owners shms shared.name d'.shm_list + 1 ≡ owners shms shared.name with_shared.shm_list)
ipc_delete_shared_memory-answers_example =
    ipc_delete_shared_memory-answers calm (pos 3) refl with_shared with_shared-Sound 4096 works
      opened_memory shared refl refl
