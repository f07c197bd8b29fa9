-- ===== src/Linux/Calls/ShmIpc.antt =====
-- linux/libsrc/insys/shmipc.cpp, with the `ipc_t` of a shared memory. What the system answers and the
-- fields of the object are those of the QNX library. The type in an object is always that of a shared
-- memory here, so the test of the type is left out; the flags of the descriptor are not modelled.
use gipcy.Base.{
  ℤ, pos, negsuc, neg, is_neg, Bool, true, false, not, ◌||◌, Option, none, some, ◌==◌,
  if◌then◌else◌, take,
}
use gipcy.Driver.Ioctl.{Ptr, null, Name}
use gipcy.Client.ShmIpc.{System, ShmObject, is_pos, new_object}
use gipcy.Linux.Ioctl.{shm_open, shm_close, invalid}
use gipcy.Linux.MutexPart.{same_int}
use gipcy.Linux.Objects.{Driver}
use gipcy.Linux.Kernel.{Kernel, Ran, done, ◌>>=◌}
use gipcy.Linux.Calls.{
  own, ioctl, ipc_driver_handle, create_object, ipc_ok, general_error, invalid_handle,
}

unfoldable pub shared_memory_open : Kernel → ℤ → Name → ℤ → Driver → Ran (Ptr × Driver)
shared_memory_open e fd name size = create_object e fd (
    shm_open (
      own (record {
        name = take 127 name;
        value = size;
        flag = pos 0;
        lockerid = pos 0;
        handle = null;
      })))

-- The result of `ioctl` as it is.
unfoldable pub shared_memory_close : Kernel → ℤ → Ptr → Driver → Ran (ℤ × Driver)
shared_memory_close e fd handle d =
    if is_neg (ipc_driver_handle fd)
    then done (invalid, d)
    else do (c, d') ← ioctl e (shm_close (own (record { handle = handle }))) d; done (c.result, d')

-- The descriptor of a memory that exists already, or none where the code goes to `do_free_ipc_object`.
unfoldable pub reuse_memory : System → Option ℤ
reuse_memory s =
    if not s.exists || is_neg s.reopened || is_neg s.stat
    then none
    else if is_pos s.st_size
    then some s.reopened
    else if is_neg s.truncated
    then none
    else some s.reopened

unfoldable pub obtain_memory : System → Option ℤ
obtain_memory s =
    if is_neg s.created then reuse_memory s else if is_neg s.truncated then none else some s.created

-- `do_unregister_shm`.
unfoldable pub unregister : Kernel → ℤ → Ptr → Driver → Ran (Option ShmObject × Driver)
unregister e fd handle d = do (_, d') ← shared_memory_close e fd handle d; done (none, d')

-- From `allocate_ipc_object` on, with the descriptor that the system gives and the size of the object.
unfoldable pub finish_object :
    Kernel → ℤ → System → Option ℤ → Name → ℤ → Ptr → Driver → Ran (Option ShmObject × Driver)
finish_object e fd s none name size handle d = unregister e fd handle d
finish_object e fd s (some shm) name size handle d =
    if s.allocated
    then done (some (new_object name shm size handle), d)
    else unregister e fd handle d

unfoldable pub ipc_create_shared_memory :
    Kernel → ℤ → System → Name → ℤ → Driver → Ran (Option ShmObject × Driver)
ipc_create_shared_memory e fd s name size d = do
  (handle, d') ← shared_memory_open e fd name size d
  if handle == null
      then done (none, d')
      else finish_object e fd s (obtain_memory s) name size handle d'

-- What IPC_createSharedMemoryEx writes to `*alreadyCreated`, if it writes.
unfoldable pub created_before : System → Option Bool
created_before s =
    if not s.allocated
    then none
    else if is_neg s.created
    then elim (reuse_memory s) [ none ↦ none | some shm ↦ some true ]
    else some false

unfoldable pub ipc_create_shared_memory_ex :
    Kernel → ℤ → System → Name → ℤ → Driver → Ran ((Option ShmObject × Option Bool) × Driver)
ipc_create_shared_memory_ex e fd s name size d = do
  (handle, d') ← shared_memory_open e fd name size d
  if handle == null then done ((none, none), d') else do
    (object, d'') ← finish_object e fd s (obtain_memory s) name size handle d'
    done ((object, created_before s), d'')

abbrev pub found_memory : System → Option ℤ
found_memory s = if is_neg s.created || is_neg s.stat then none else some s.created

-- The size is that of the memory, if it has one.
abbrev pub found_size : System → ℤ
found_size s = if is_pos s.st_size then s.st_size else pos 0

unfoldable pub ipc_open_shared_memory :
    Kernel → ℤ → System → Name → Driver → Ran (Option ShmObject × Driver)
ipc_open_shared_memory e fd s name d = do
  (handle, d') ← shared_memory_open e fd name (pos 0) d
  if handle == null
      then done (none, d')
      else finish_object e fd s (found_memory s) name (found_size s) handle d'

-- The address, the object afterwards, and the descriptor that is closed, whether `mmap` succeeds or not.
unfoldable pub ipc_map_shared_memory :
    System → Option ShmObject → (Ptr × Option ShmObject) × Option ℤ
ipc_map_shared_memory s none = ((null, none), none)
ipc_map_shared_memory s (some h) = if h.size == 0 then ((null, some h), none) else (
  elim s.mapped [ none ↦ (null, some h) | some p ↦ (p, some (record h { block = p })) ],
  some h.shm,
)

unfoldable pub ipc_unmap_shared_memory : System → Option ShmObject → ℤ × Option ShmObject
ipc_unmap_shared_memory s none = (invalid_handle, none)
ipc_unmap_shared_memory s (some h) =
    if h.block == null
    then (general_error, some h)
    else if is_neg s.unmapped
    then (general_error, some h)
    else (ipc_ok, some (record h { block = null; size = 0 }))

-- The result by that of `shared_memory_close`, and whether the name is taken from the system.
unfoldable pub after_close : System → ℤ → ℤ × Bool
after_close s (pos n) = if is_neg s.unlinked then (general_error, false) else (ipc_ok, true)
after_close s (negsuc n) =
    if same_int (negsuc n) (neg 16) then (ipc_ok, false) else (general_error, false)

-- The result, whether the name of the object is taken from the system, and the object, which is not
-- freed.
unfoldable pub ipc_delete_shared_memory :
    Kernel → ℤ → System → Option ShmObject → Driver → Ran (((ℤ × Bool) × Option ShmObject) × Driver)
ipc_delete_shared_memory e fd s none d = done (((neg 1, false), none), d)
ipc_delete_shared_memory e fd s (some h) d = do
  (res, d') ← shared_memory_close e fd h.user d
  done (
    (
      after_close s res,
      (if h.block == null then some h else (ipc_unmap_shared_memory s (some h)).1),
    ),
    d',
  )
