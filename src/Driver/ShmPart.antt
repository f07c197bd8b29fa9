-- ===== src/Driver/ShmPart.antt =====
-- qnx/ipcdrv/ipcshm.cpp. A parameter that may be NULL is an Option.
pub mod Open
pub mod Close
pub mod Safety
use gipcy.Base.{◌-◌, ℤ, pos, ◌||◌, Option, none, some, ◌==◌, if◌then◌else◌, take}
use gipcy.Driver.Ioctl.{Ptr, null, name_size, invalid, busy, CreateParam, CloseParam}
use gipcy.Driver.Objects.{Shm, shm_id, mutex_id}
use gipcy.Driver.Machine.{Env, Cmd, pure, fails, ◌>>=◌, ◌>>◌, no_driver}
use gipcy.Driver.Struct.{shms, read_id, wait_lock, post_lock}
use gipcy.Driver.Table.{open_entry, close_entry, close_entries}

-- A structure as it stands before `++shm_owner_count`: zeroed, then filled in.
unfoldable pub new_shm : CreateParam → Ptr → Shm
new_shm param p = record {
  name = take (name_size - 1) param.name;
  file = null;
  handle = p;
  owner_count = 0;
  id = shm_id;
}

-- A null `param` ends at `shm->shm_handle` of a null entry.
unfoldable pub ipc_shm_open : Env → Option CreateParam → Cmd Ptr
unfolding wait_lock post_lock open_entry new_shm
ipc_shm_open e none = fails
ipc_shm_open e (some param) = do
  wait_lock shms
  handle ← open_entry shms e param.name (λ p. pure (new_shm param p))
  post_lock shms e
  pure handle

-- The identifier is compared with that of a mutex.
unfoldable pub ipc_shm_close : Env → Option CloseParam → Cmd ℤ
unfolding no_driver wait_lock read_id post_lock close_entry
ipc_shm_close e none = pure invalid
ipc_shm_close e (some param) = do
  no_drv ← no_driver
  if no_drv || param.handle == null then pure invalid else (do
    wait_lock shms
    id ← read_id shms param.handle
    error ← (if id == mutex_id then close_entry shms param.handle else pure invalid)
    post_lock shms e
    pure error)

unfoldable pub ipc_shm_close_all : Env → Cmd ℤ
unfolding no_driver wait_lock post_lock close_entries
ipc_shm_close_all e = do
  no_drv ← no_driver
  if no_drv then pure invalid else (do
    wait_lock shms
    used ← close_entries shms
    post_lock shms e
    pure (if used == 0 then pos 0 else busy))
