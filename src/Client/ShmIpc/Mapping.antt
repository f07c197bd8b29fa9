-- ===== src/Client/ShmIpc/Mapping.antt =====
-- Mapping an object that IPC_openSharedMemory gives.
use gipcy.Base.{
  ℤ, pos, Bool, true, false, is_neg, Option, none, some, ◌≡◌, refl, ◌==◌, if◌then◌else◌,
}
use gipcy.Driver.Ioctl.{Ptr, null, Name}
use gipcy.Driver.Machine.{Env, World, Run, ok, fault, blocked, Cmd, and_then, pure}
use gipcy.Client.Requests.{Link}
use gipcy.Client.ShmIpc.{
  ShmObject, System, new_object, shared_memory_open, shared_memory_close, give_up, finish,
  ipc_open_shared_memory, ipc_map_shared_memory,
}

-- Every result of the run is of this kind.
abbrev pub Every : {A : Type 0} → (A → Type 0) → Run A → Type 0
Every P (ok a w) = P a
Every P fault = Unit {0}
Every P blocked = Unit {0}

Every-and_then :
    {A B : Type 0} (P : B → Type 0) (run : Run A) (k : A → Cmd B)
    → ((a : A) (w : World) → Every P (k a w))
    → Every P (and_then run k)
Every-and_then P (ok a w) k all = all a w
Every-and_then P fault k all = tt
Every-and_then P blocked k all = tt

if_Every :
    {A : Type 0} (P : A → Type 0) (b : Bool) (c c' : Cmd A) (w : World)
    → Every P (c w)
    → Every P (c' w)
    → Every P ((if b then c else c') w)
if_Every P true c c' w h h' = h
if_Every P false c c' w h h' = h'

-- mmap is not reached.
abbrev Unmapped : System → Option ShmObject → Type 0
Unmapped s h = (ipc_map_shared_memory s h).0 ≡ null

module _ (l : Link) (e : Env) (fd : ℤ) (opening mapping : System) where
  give_up-Unmapped : (handle : Ptr) (w : World) → Every (Unmapped mapping) (give_up l e fd handle w)
  unfolding give_up ipc_map_shared_memory
  give_up-Unmapped handle w =
      Every-and_then (Unmapped mapping) (shared_memory_close l e fd handle w) (λ _. pure none)
        (λ a w. refl)

  finish-Unmapped :
      (shm : Option ℤ) (name : Name) (handle : Ptr) (w : World)
      → Every (Unmapped mapping) (finish l e fd opening shm name (pos 0) handle w)
  unfolding finish ipc_map_shared_memory
  finish-Unmapped none name handle w = give_up-Unmapped handle w
  finish-Unmapped (some shm) name handle w =
      if_Every (Unmapped mapping) opening.allocated
        (pure (some (new_object name shm (pos 0) handle))) (give_up l e fd handle) w refl
        (give_up-Unmapped handle w)

  -- Whatever the driver and the system answer, IPC_mapSharedMemory of an object that
  -- IPC_openSharedMemory has given returns NULL.
  pub ipc_map_shared_memory-opened :
      (name : Name) (w : World)
      → Every
          (λ h. (ipc_map_shared_memory mapping h).0 ≡ null)
          (ipc_open_shared_memory l e fd opening name w)
  unfolding ipc_open_shared_memory ipc_map_shared_memory
  ipc_map_shared_memory-opened name w =
      Every-and_then (Unmapped mapping) (shared_memory_open l e fd name (pos 0) w) _ (λ handle v.
        if_Every (Unmapped mapping) (handle == null) (pure none)
          (finish l e fd opening (if is_neg opening.created then none else some opening.created)
            name (pos 0) handle)
          v refl (finish-Unmapped _ name handle v))
