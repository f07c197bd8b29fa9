-- ===== src/Client/ShmExamples.antt =====
-- The theorems on shared memory at the driver of Driver/Sample.
use gipcy.Base.{◌≡◌, refl, [], ◌∷◌, pos, neg, true, false, none, some, arith}
use gipcy.Base.Tests.{same_text}
use gipcy.Driver.Ioctl.{null}
use gipcy.Driver.Machine.{world, Returns}
use gipcy.Driver.Struct.{shms}
use gipcy.Driver.Table.Spec.{HasRoom, open_cells}
use gipcy.Driver.Registry.{RealisedBy}
use gipcy.Driver.ShmPart.Open.{first_shm}
use gipcy.Driver.Sample.{segment, env, memory, driver, registry, registry-Realises}
use gipcy.Client.Examples.{link, link-Delivers, link-NeverNegative, free_place}
use gipcy.Client.ShmIpc.{
  ShmObject, System, obtain, new_object, ipc_create_shared_memory, ipc_open_shared_memory,
  ipc_map_shared_memory, ipc_delete_shared_memory,
}
use gipcy.Client.ShmIpc.Lost.{
  shared_memory_param, ipc_create_shared_memory-leaks, ipc_delete_shared_memory-keeps,
}
use gipcy.Client.ShmIpc.Mapping.{Every, ipc_map_shared_memory-opened}

-- A system in which shm_open succeeds and ftruncate fails.
abbrev full_system : System
full_system = record {
  allocated = true;
  created = pos 5;
  exists = false;
  reopened = neg 1;
  stat = neg 1;
  st_size = pos 0;
  truncated = neg 1;
  mapped = some 4096;
  unmapped = pos 0;
  unlinked = pos 0;
}

no_descriptor : obtain full_system ≡ none
unfolding obtain
no_descriptor = refl

shm_room : HasRoom shms (99 ∷ []) registry.shm_cells
unfolding HasRoom same_text
shm_room = tt

ipc_create_shared_memory-leaks_example :
    Returns
      (λ object w.
        (object ≡ none)
        × RealisedBy 32767 w (record registry {
          shm_cells =
              open_cells shms
                (99 ∷ [])
                96
                (first_shm env (shared_memory_param (99 ∷ []) (pos 64)))
                registry.shm_cells;
        }))
      (ipc_create_shared_memory link env
        (pos 3)
        full_system
        (99 ∷ [])
        (pos 64)
        (world memory driver))
ipc_create_shared_memory-leaks_example =
    ipc_create_shared_memory-leaks link env (pos 3) refl link-Delivers memory driver registry
      registry-Realises full_system (99 ∷ []) (pos 64) (omega arith) shm_room (λ z. ground arith)
      free_place no_descriptor

abbrev an_object : ShmObject
an_object = new_object (97 ∷ []) (pos 5) (pos 64) 80

ipc_delete_shared_memory-keeps_example :
    Returns
      (λ x w. (x.0 ≡ (pos 0, true)) × (w ≡ world memory driver))
      (ipc_delete_shared_memory link env (pos 3) full_system (some an_object) (world memory driver))
ipc_delete_shared_memory-keeps_example =
    ipc_delete_shared_memory-keeps link env (pos 3) refl link-Delivers memory driver registry
      registry-Realises 80 segment refl full_system an_object link-NeverNegative refl

ipc_map_shared_memory-opened_example :
    Every
      (λ h. (ipc_map_shared_memory full_system h).0 ≡ null)
      (ipc_open_shared_memory link env (pos 3) full_system (97 ∷ []) (world memory driver))
ipc_map_shared_memory-opened_example =
    ipc_map_shared_memory-opened link env (pos 3) full_system full_system (97 ∷ [])
      (world memory driver)
