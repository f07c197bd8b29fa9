-- ===== src/Driver/MutexPart.antt =====
-- qnx/ipcdrv/ipcmutex.cpp. A parameter that may be NULL is an Option.
pub mod Open
pub mod Lock
pub mod Close
pub mod Safety
use gipcy.Base.{◌-◌, ℤ, pos, neg, to_unsigned, ◌||◌, Option, none, some, ◌==◌, if◌then◌else◌, take}
use gipcy.Driver.Ioctl.{
  Ptr, null, name_size, invalid, busy, CreateParam, LockParam, UnlockParam, CloseParam,
}
use gipcy.Driver.Objects.{Mutex, a_mutex, mutex_id, increment, decrement}
use gipcy.Driver.Machine.{
  Env, Cmd, pure, fails, hangs, ◌>>=◌, ◌>>◌, no_driver, store, sem_init, sem_post,
}
use gipcy.Driver.Struct.{mutexes, load, read_id, wait_lock, post_lock}
use gipcy.Driver.Table.{open_entry, close_entry, close_entries}
use gipcy.Driver.Timeout.{ms_to_timespec}

-- A structure as it stands before `++mutex_owner_count`: zeroed, then filled in. A value of 0 makes
-- a mutex that its creator holds.
unfoldable pub new_mutex : Env → CreateParam → Ptr → Cmd Mutex
unfolding sem_init
new_mutex e param p = do
  count ←
      (if to_unsigned param.value == 0
        then (if sem_init e 1 == 0
            then (if e.interrupted then pure 0 else hangs)
            else pure (sem_init e 1 - 1))
        else pure (sem_init e (to_unsigned param.value)))
  pure (record {
    name = take (name_size - 1) param.name;
    file = null;
    handle = p;
    owner_count = 0;
    lock_count = 0;
    unlock_count = 0;
    mutex = count;
    id = mutex_id;
  })

-- A null `param` ends at `mutex->mutex_handle` of a null entry.
unfoldable pub ipc_mutex_create : Env → Option CreateParam → Cmd Ptr
unfolding wait_lock post_lock open_entry new_mutex
ipc_mutex_create e none = fails
ipc_mutex_create e (some param) = do
  wait_lock mutexes
  handle ← open_entry mutexes e param.name (new_mutex e param)
  post_lock mutexes e
  pure handle

-- `sem_wait` or `sem_timedwait` on the entry, then `++mutex_lock_count`; a failed timed wait answers
-- with its result, -1. The result of
-- `sem_wait` is not looked at, so a wait that a signal ends counts as a lock.
unfoldable pub take_mutex : Env → LockParam → Cmd ℤ
unfolding load store increment ms_to_timespec
take_mutex e param = do
  s ← load mutexes param.handle
  if s.mutex == 0
      then (elim param.timeout [
        | ℤ.negsuc _ ↦
            if e.interrupted
            then (do
              store param.handle (some (a_mutex (record s { lock_count = increment s.lock_count })))
              pure (pos 0))
            else hangs
        | pos ms ↦ pure (neg 1)
      ])
      else (do
        store param.handle
            (some (a_mutex (record s { mutex = s.mutex - 1; lock_count = increment s.lock_count })))
        pure (pos 0))

-- The trace line reads `param` before the test for NULL.
unfoldable pub ipc_mutex_lock : Env → Option LockParam → Cmd ℤ
unfolding no_driver wait_lock read_id post_lock take_mutex
ipc_mutex_lock e none = fails
ipc_mutex_lock e (some param) = do
  no_drv ← no_driver
  if no_drv || param.handle == null then pure invalid else (do
    wait_lock mutexes
    id ← read_id mutexes param.handle
    post_lock mutexes e
    if id == mutex_id then take_mutex e param else pure invalid)

unfoldable pub give_mutex : Env → Ptr → Cmd ℤ
unfolding load store sem_post decrement
give_mutex e handle = do
  s ← load mutexes handle
  store handle (
      some (a_mutex (record s { mutex = sem_post e s.mutex; lock_count = decrement s.lock_count })))
  pure (pos 0)

unfoldable pub ipc_mutex_unlock : Env → Option UnlockParam → Cmd ℤ
unfolding no_driver wait_lock read_id post_lock give_mutex
ipc_mutex_unlock e none = pure invalid
ipc_mutex_unlock e (some param) = do
  no_drv ← no_driver
  if no_drv || param.handle == null then pure invalid else (do
    wait_lock mutexes
    id ← read_id mutexes param.handle
    post_lock mutexes e
    if id == mutex_id then give_mutex e param.handle else pure invalid)

-- `exist` is true from the start, so the identifier is read and its value does not matter.
unfoldable pub ipc_mutex_close : Env → Option CloseParam → Cmd ℤ
unfolding no_driver wait_lock read_id post_lock close_entry
ipc_mutex_close e none = pure invalid
ipc_mutex_close e (some param) = do
  no_drv ← no_driver
  if no_drv || param.handle == null then pure invalid else (do
    wait_lock mutexes
    id ← read_id mutexes param.handle
    error ← close_entry mutexes param.handle
    post_lock mutexes e
    pure error)

unfoldable pub ipc_mutex_close_all : Env → Cmd ℤ
unfolding no_driver wait_lock post_lock close_entries
ipc_mutex_close_all e = do
  no_drv ← no_driver
  if no_drv then pure invalid else (do
    wait_lock mutexes
    used ← close_entries mutexes
    post_lock mutexes e
    pure (if used == 0 then pos 0 else busy))
