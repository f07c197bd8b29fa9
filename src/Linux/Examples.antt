-- ===== src/Linux/Examples.antt =====
-- The Linux driver on concrete data: a mutex that locker 7 has captured, and a semaphore that is opened.
use gipcy.Base.{
  ℕ, ◌+◌, ◌≡◌, refl, ◌⊎◌, inl, ℤ, pos, negsuc, neg, is_neg, true, false, [], ◌∷◌, none, some, arith,
}
use gipcy.Driver.Ioctl.{null, Name}
use gipcy.Linux.Ioctl.{CreateParam, Request, sem_open}
use gipcy.Linux.Objects.{Mutex, sem_id, mutex_id, Driver, no_entries}
use gipcy.Linux.Kernel.{Kernel, done, user_handle, Answers}
use gipcy.Linux.Entries.{check, open_entry, use_entry}
use gipcy.Linux.Entries.Sound.{Sound}
use gipcy.Linux.SemPart.{ipc_sem_create}
use gipcy.Linux.MutexPart.{ipc_mutex_lock, lock_mutex}
use gipcy.Linux.Rw.{Answer, answer, ioctl_sem_open, ioctl_mutex_lock}
use gipcy.Linux.Module.{ipc_device_open, ipc_device_close, ipc_device_ioctl}
use gipcy.Linux.Module.Files.{loaded, opened, closed, asked, Files-none}
use gipcy.Linux.Module.Copying.{opens_sem, arg_of, Opening-full}
use gipcy.Linux.Safety.{DriverSound, Part, owners_of, Fair, gained, lost}
use gipcy.Linux.Safety.Requests.{Moves}
use gipcy.Linux.Safety.Requests.Served.{ipc_device_ioctl-Moves}
use gipcy.Linux.Session
use gipcy.Linux.Session.{Reached, capture, release, Among, Held}
use gipcy.Linux.Session.Balance.{Reached-owners}
use gipcy.Linux.Session.OneHolder.{Held-agree}
use gipcy.Linux.Session.Answers.{Held-signalled}
use gipcy.Linux.Start.{
  Boot, null_pointer, error_pointer, none_taken, module_loaded, ipc_module_init,
  ipc_module_init-balanced,
}

-- A kernel with memory at 4096 and without a signal, one without memory, and one with a signal.
abbrev pub calm : Kernel
calm = record { allocated = some 4096; stray = λ p. some 0; signalled = false }

abbrev full : Kernel
full = record { allocated = none; stray = λ p. some 0; signalled = false }

abbrev signalling : Kernel
signalling = record { allocated = some 4096; stray = λ p. some 0; signalled = true }

abbrev param : CreateParam
param = record { name = 115 ∷ []; value = pos 1; flag = pos 0; lockerid = pos 0; handle = null }

abbrev pub empty_driver : Driver
empty_driver = no_entries 1

pub no_entries-Sound : (n : ℕ) → DriverSound (no_entries n)
unfolding Sound
no_entries-Sound n = record { sem_table = tt; mutex_table = tt; event_table = tt; shm_table = tt }

abbrev open_request : Request
open_request = sem_open (arg_of param true)

open-Fair : Fair calm empty_driver open_request
open-Fair = (omega arith, (omega arith, omega arith, refl), omega arith)

abbrev one_sem : Driver
one_sem = record empty_driver {
  sem_list =
      (
        4096,
        record {
          name = 115 ∷ [];
          handle = 4096;
          owner_count = 1;
          lock_count = 0;
          sem = 1;
          id = sem_id;
        },
      )
      ∷ [];
}

abbrev open_answer : Answer
open_answer = record { error = pos 0; written = some (record param { handle = user_handle 4096 }) }

open_run : ipc_device_ioctl calm open_request empty_driver ≡ done (open_answer, one_sem)
unfolding ipc_device_ioctl ioctl_sem_open ipc_sem_create open_entry
open_run = refl

ipc_device_ioctl-Moves_example :
    Answers
      (λ (x : Answer × Driver).
        Moves empty_driver
          (lost empty_driver open_request)
          (gained calm empty_driver open_request)
          x.1)
      (ipc_device_ioctl calm open_request empty_driver)
ipc_device_ioctl-Moves_example =
    ipc_device_ioctl-Moves calm empty_driver open_request (no_entries-Sound 1) open-Fair

Reached-owners_example :
    DriverSound one_sem
    × ((k : Part) (n : Name)
        → owners_of k n one_sem + (0 + 0)
          ≡ owners_of k n empty_driver + (0 + gained calm empty_driver open_request k n))
Reached-owners_example =
    Reached-owners empty_driver (no_entries-Sound 1)
      (Session.asked calm open_request open_answer Session.begin open-Fair open_run)

Opening-full_example :
    ipc_device_ioctl full open_request empty_driver
    ≡ done (
      record { error = pos 0; written = some (record param { handle = user_handle null }) },
      empty_driver,
    )
Opening-full_example = Opening-full opens_sem full empty_driver param refl refl

Files-none_example : (ipc_device_close one_sem).1 ≡ no_entries 0
unfolding ipc_device_open
Files-none_example = Files-none (closed (asked calm open_request (opened loaded) open_run))

abbrev pub free_mutex : Mutex
free_mutex = record {
  name = 109 ∷ [];
  handle = 8192;
  owner_count = 2;
  lock_count = 0;
  lockerid = pos 0;
  mutex = 1;
  id = mutex_id;
}

abbrev pub with_mutex : Mutex → Driver
with_mutex a = record empty_driver { mutex_list = (8192, a) ∷ [] }

pub with_mutex-Sound : DriverSound (with_mutex free_mutex)
unfolding Sound
with_mutex-Sound = record {
  sem_table = tt;
  mutex_table = (
    record {
      located = omega arith;
      in_memory = omega arith;
      known_id = refl;
      owned = omega arith;
      in_range = omega arith;
      good = inl (refl, refl, refl);
    },
    refl,
    refl,
    tt,
  );
  event_table = tt;
  shm_table = tt;
}

abbrev pub captured_mutex : Mutex
captured_mutex = record free_mutex { mutex = 0; lock_count = 1; lockerid = pos 7 }

capture-Fair : Fair calm (with_mutex free_mutex) (capture 8192 (pos 7) (neg 1))
capture-Fair = (λ absent. cc, λ e. cc, refl)

capture_run :
    ipc_device_ioctl calm (capture 8192 (pos 7) (neg 1)) (with_mutex free_mutex)
    ≡ done (answer (pos 0), with_mutex captured_mutex)
unfolding ipc_device_ioctl ioctl_mutex_lock ipc_mutex_lock use_entry check lock_mutex
capture_run = refl

pub seven_holds : Held 8192 (with_mutex free_mutex) (with_mutex captured_mutex) (pos 7 ∷ [])
seven_holds = Session.captured calm (pos 7) (neg 1) Session.nobody capture-Fair capture_run refl

Held-agree_example : ◌≡◌ {A = ℤ} (pos 7) (pos 7)
Held-agree_example =
    Held-agree 8192 (with_mutex free_mutex) with_mutex-Sound free_mutex refl refl (pos 7) (pos 7)
      seven_holds (inl refl) (inl refl)

Held-signalled_example :
    (d' : Driver) × (ipc_device_ioctl signalling
        (capture 8192 (pos 8) (negsuc 0))
        (with_mutex captured_mutex)
      ≡ done (answer (pos 0), d'))
Held-signalled_example =
    Held-signalled 8192 (with_mutex free_mutex) with_mutex-Sound free_mutex refl refl signalling
      (pos 8) (pos 7) 0 seven_holds (inl refl) (λ e. cc) refl

-- Without a device file everything is given back.
abbrev no_device : Boot
no_device = record {
  region_result = pos 0;
  class = error_pointer;
  memory_given = true;
  cdev_result = pos 0;
  device = null_pointer;
  proc_made = true;
}

ipc_module_init-balanced_example :
    (ipc_module_init no_device none_taken
      ≡ (pos 0, module_loaded error_pointer null_pointer true (no_entries 0)))
    ⊎ ((is_neg (ipc_module_init no_device none_taken).0 ≡ true)
        × ((ipc_module_init no_device none_taken).1 ≡ none_taken))
ipc_module_init-balanced_example = ipc_module_init-balanced no_device
