-- ===== src/Driver/SemPart.antt =====
-- qnx/ipcdrv/ipcsem.cpp. A parameter that may be NULL is an Option.
pub mod Open
pub mod Lock
pub mod Close
pub mod Again
pub mod Safety
use gipcy.Base.{◌-◌, ℤ, pos, to_unsigned, ◌||◌, Option, none, some, ◌==◌, if◌then◌else◌, take}
use gipcy.Driver.Ioctl.{
  Ptr, null, name_size, invalid, busy, CreateParam, LockParam, UnlockParam, CloseParam,
}
use gipcy.Driver.Objects.{Sem, a_sem, sem_id, increment, decrement}
use gipcy.Driver.Machine.{
  Env, Cmd, pure, fails, hangs, ◌>>=◌, ◌>>◌, no_driver, store, sem_init, sem_post,
}
use gipcy.Driver.Struct.{sems, load, read_id, wait_lock, post_lock}
use gipcy.Driver.Table.{open_entry, close_entry, close_entries}
use gipcy.Driver.Timeout.{ms_to_timespec}

-- A structure as it stands before `++sem_owner_count`: zeroed, then filled in.
unfoldable pub new_sem : Env → CreateParam → Ptr → Sem
unfolding sem_init
new_sem e param p = record {
  name = take (name_size - 1) param.name;
  file = null;
  handle = p;
  owner_count = 0;
  lock_count = 0;
  unlock_count = 0;
  sem = sem_init e (to_unsigned param.value);
  id = sem_id;
}

-- The lock is taken before the parameters are looked at. A null `param` ends at `sem->sem_handle` of
-- a null entry.
unfoldable pub ipc_sem_create : Env → Option CreateParam → Cmd Ptr
unfolding wait_lock post_lock open_entry new_sem
ipc_sem_create e none = do wait_lock sems; fails
ipc_sem_create e (some param) = do
  wait_lock sems
  handle ← open_entry sems e param.name (λ p. pure (new_sem e param p))
  post_lock sems e
  pure handle

-- `sem_wait` or `sem_timedwait` on the entry, then `++sem_lock_count`; a failed timed wait answers
-- with `errno`. The result of
-- `sem_wait` is not looked at, so a wait that a signal ends counts as a lock.
unfoldable pub take_sem : Env → LockParam → Cmd ℤ
unfolding load store increment ms_to_timespec
take_sem e param = do
  s ← load sems param.handle
  if s.sem == 0
      then (elim param.timeout [
        | ℤ.negsuc _ ↦
            if e.interrupted
            then (do
              store param.handle (some (a_sem (record s { lock_count = increment s.lock_count })))
              pure (pos 0))
            else hangs
        | pos ms ↦ pure (pos (e.wait_errno (ms_to_timespec e ms)))
      ])
      else (do
        store param.handle
            (some (a_sem (record s { sem = s.sem - 1; lock_count = increment s.lock_count })))
        pure (pos 0))

-- The trace line reads `param->timeout` before the test for NULL.
unfoldable pub ipc_sem_lock : Env → Option LockParam → Cmd ℤ
unfolding no_driver wait_lock read_id post_lock take_sem
ipc_sem_lock e none = fails
ipc_sem_lock e (some param) = do
  no_drv ← no_driver
  if no_drv || param.handle == null then pure invalid else (do
    wait_lock sems
    id ← read_id sems param.handle
    post_lock sems e
    if id == sem_id then take_sem e param else pure invalid)

unfoldable pub give_sem : Env → UnlockParam → Cmd ℤ
unfolding load store sem_post decrement
give_sem e param = do
  s ← load sems param.handle
  store param.handle
      (some (a_sem (record s { sem = sem_post e s.sem; lock_count = decrement s.lock_count })))
  pure (pos 0)

unfoldable pub ipc_sem_unlock : Env → Option UnlockParam → Cmd ℤ
unfolding no_driver wait_lock read_id post_lock give_sem
ipc_sem_unlock e none = pure invalid
ipc_sem_unlock e (some param) = do
  no_drv ← no_driver
  if no_drv || param.handle == null then pure invalid else (do
    wait_lock sems
    id ← read_id sems param.handle
    post_lock sems e
    if id == sem_id then give_sem e param else pure invalid)

-- The source posts the lock where the other parts wait for it.
unfoldable pub ipc_sem_close : Env → Option CloseParam → Cmd ℤ
unfolding no_driver read_id post_lock close_entry
ipc_sem_close e none = pure invalid
ipc_sem_close e (some param) = do
  no_drv ← no_driver
  if no_drv || param.handle == null then pure invalid else (do
    post_lock sems e
    id ← read_id sems param.handle
    error ← (if id == sem_id then close_entry sems param.handle else pure invalid)
    post_lock sems e
    pure error)

unfoldable pub ipc_sem_close_all : Env → Cmd ℤ
unfolding no_driver wait_lock post_lock close_entries
ipc_sem_close_all e = do
  no_drv ← no_driver
  if no_drv then pure invalid else (do
    wait_lock sems
    used ← close_entries sems
    post_lock sems e
    pure (if used == 0 then pos 0 else busy))
