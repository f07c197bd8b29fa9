-- ===== src/Client/ShmIpc.antt =====
-- qnx/insys/shmipc.cpp, with the `ipc_t` of a shared memory from qnx/insys/qnxipc.cpp. The type in it is
-- always that of a shared memory here, so the test of the type is left out.
pub mod Lost
pub mod Mapping
use gipcy.Base.{
  ℕ, ◌+◌, ◌-◌, ◌^◌, ℤ, pos, negsuc, neg, is_neg, Bool, true, false, not, ◌||◌, ◌∷◌, Option, none,
  some, ◌==◌, if◌then◌else◌, take,
}
use gipcy.Driver.Ioctl.{
  Ptr, null, Name, name_size, invalid, ebusy, shm_open, shm_close, close_param,
}
use gipcy.Driver.Machine.{Env, Cmd, pure, ◌>>=◌}
use gipcy.Client.Device.{ipc_driver_handle}
use gipcy.Client.Requests.{Link, send, open_object}

pub record ShmObject : Type 0 where
  pub name : Name
  pub shm : ℤ
  pub block : Ptr
  pub size : ℕ
  pub user : Ptr

-- What the system answers during one call: whether there is memory for the object and its name, the
-- results of the first and of the second shm_open, whether the first one failed with EEXIST, those of
-- fstat and of ftruncate, and what mmap (none for MAP_FAILED), munmap and shm_unlink give.
pub record System : Type 0 where
  pub allocated : Bool
  pub created : ℤ
  pub exists : Bool
  pub reopened : ℤ
  pub stat : ℤ
  pub st_size : ℤ
  pub truncated : ℤ
  pub mapped : Option Ptr
  pub unmapped : ℤ
  pub unlinked : ℤ

-- An int as a size_t.
abbrev pub to_size : ℤ → ℕ
to_size (pos n) = n
to_size (negsuc n) = 2 ^ 64 - (n + 1)

abbrev pub is_pos : ℤ → Bool
is_pos (pos n) = not (n == 0)
is_pos (negsuc n) = false

unfoldable pub shared_memory_open : Link → Env → ℤ → Name → ℤ → Cmd Ptr
unfolding open_object
shared_memory_open l e fd name size = open_object l e fd (
    shm_open
      (record { name = take (name_size - 1) name; value = size; flag = pos 0; handle = null }))

unfoldable pub shared_memory_close : Link → Env → ℤ → Ptr → Cmd ℤ
unfolding send
shared_memory_close l e fd handle =
    if is_neg (ipc_driver_handle fd)
    then pure invalid
    else (do (res, none_back) ← send l e (shm_close (close_param handle)); pure res)

-- `allocate_ipc_object` and the fields that are set before shm_open; the prefix is "/".
abbrev pub new_object : Name → ℤ → ℤ → Ptr → ShmObject
new_object name shm size handle = record {
  name = take 4095 (b'/' ∷ name);
  shm = shm;
  block = null;
  size = to_size size;
  user = handle;
}

-- The descriptor of an object that exists already.
unfoldable pub reuse : System → Option ℤ
reuse s =
    if not s.exists || is_neg s.reopened || is_neg s.stat
    then none
    else if is_pos s.st_size
    then some s.reopened
    else if is_neg s.truncated
    then none
    else some s.reopened

-- The descriptor, or none where the code goes to `do_free_ipc_object`.
unfoldable pub obtain : System → Option ℤ
unfolding reuse
obtain s = if is_neg s.created then reuse s else if is_neg s.truncated then none else some s.created

-- `do_unregister_shm`.
unfoldable pub give_up : Link → Env → ℤ → Ptr → Cmd (Option ShmObject)
unfolding shared_memory_close
give_up l e fd handle = do _ ← shared_memory_close l e fd handle; pure none

-- From `allocate_ipc_object` on, with the descriptor that the system gives.
unfoldable pub finish : Link → Env → ℤ → System → Option ℤ → Name → ℤ → Ptr → Cmd (Option ShmObject)
unfolding give_up
finish l e fd s none name size handle = give_up l e fd handle
finish l e fd s (some shm) name size handle =
    if s.allocated then pure (some (new_object name shm size handle)) else give_up l e fd handle

unfoldable pub ipc_create_shared_memory :
    Link → Env → ℤ → System → Name → ℤ → Cmd (Option ShmObject)
ipc_create_shared_memory l e fd s name size = do
  handle ← shared_memory_open l e fd name size
  if handle == null then pure none else finish l e fd s (obtain s) name size handle

-- What IPC_createSharedMemoryEx writes to `*alreadyCreated`, if it writes.
unfoldable pub already_created : System → Option Bool
unfolding reuse
already_created s =
    if not s.allocated
    then none
    else if is_neg s.created
    then elim (reuse s) [ none ↦ none | some shm ↦ some true ]
    else some false

-- The object, and what is written to `*alreadyCreated`.
unfoldable pub ipc_create_shared_memory_ex :
    Link → Env → ℤ → System → Name → ℤ → Cmd (Option ShmObject × Option Bool)
ipc_create_shared_memory_ex l e fd s name size = do
  handle ← shared_memory_open l e fd name size
  if handle == null then pure (none, none) else (do
    object ← finish l e fd s (obtain s) name size handle
    pure (object, already_created s))

unfoldable pub ipc_open_shared_memory : Link → Env → ℤ → System → Name → Cmd (Option ShmObject)
ipc_open_shared_memory l e fd s name = do
  handle ← shared_memory_open l e fd name (pos 0)
  if handle == null
      then pure none
      else finish l e fd s (if is_neg s.created then none else some s.created) name (pos 0) handle

-- IPC_INVALID_HANDLE and IPC_GENERAL_ERROR as ints.
abbrev pub invalid_handle : ℤ
invalid_handle = neg 0x3ffffeff

abbrev pub general_error : ℤ
general_error = neg 0x3fffff00

-- The address, and the object afterwards.
unfoldable pub ipc_map_shared_memory : System → Option ShmObject → Ptr × Option ShmObject
ipc_map_shared_memory s none = (null, none)
ipc_map_shared_memory s (some h) =
    if h.size == 0
    then (null, some h)
    else elim s.mapped [ none ↦ (null, some h) | some p ↦ (p, some (record h { block = p })) ]

unfoldable pub ipc_unmap_shared_memory : System → Option ShmObject → ℤ × Option ShmObject
ipc_unmap_shared_memory s none = (invalid_handle, none)
ipc_unmap_shared_memory s (some h) =
    if h.block == null
    then (general_error, some h)
    else if is_neg s.unmapped
    then (general_error, some h)
    else (pos 0, some (record h { block = null; size = 0 }))

-- The result by that of `shared_memory_close`, and whether the name is taken from the system.
unfoldable pub unlink_after : System → ℤ → ℤ × Bool
unlink_after s (pos n) = if is_neg s.unlinked then (general_error, false) else (pos 0, true)
unlink_after s (negsuc n) = if n + 1 == ebusy then (pos 0, false) else (general_error, false)

-- The result, whether the name of the object is taken from the system, and the object, which is not
-- freed.
unfoldable pub ipc_delete_shared_memory :
    Link → Env → ℤ → System → Option ShmObject → Cmd ((ℤ × Bool) × Option ShmObject)
unfolding shared_memory_close unlink_after ipc_unmap_shared_memory
ipc_delete_shared_memory l e fd s none = pure ((neg 1, false), none)
ipc_delete_shared_memory l e fd s (some h) = do
  res ← shared_memory_close l e fd h.user
  pure (
    unlink_after s res,
    (if h.block == null then some h else (ipc_unmap_shared_memory s (some h)).1),
  )
