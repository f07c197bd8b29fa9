-- ===== src/Driver/EventPart.antt =====
-- qnx/ipcdrv/ipcevent.cpp. A parameter that may be NULL is an Option.
pub mod Open
pub mod Lock
pub mod Close
pub mod Safety
use gipcy.Base.{◌-◌, ℤ, pos, neg, ◌||◌, Option, none, some, ◌==◌, if◌then◌else◌, take}
use gipcy.Driver.Ioctl.{
  Ptr, null, name_size, invalid, busy, CreateParam, LockParam, UnlockParam, ResetParam, CloseParam,
}
use gipcy.Driver.Objects.{Event, a_event, event_id, mutex_id, increment, decrement}
use gipcy.Driver.Machine.{
  Env, Cmd, pure, fails, hangs, ◌>>=◌, ◌>>◌, no_driver, store, sem_init, sem_post,
}
use gipcy.Driver.Struct.{events, load, read_id, wait_lock, post_lock}
use gipcy.Driver.Table.{open_entry, close_entry, close_entries}
use gipcy.Driver.Timeout.{ms_to_timespec}

-- A structure as it stands before `++event_owner_count`: zeroed, then filled in. Neither `value` nor
-- `flag` of the request is looked at.
unfoldable pub new_event : Env → CreateParam → Ptr → Event
unfolding sem_init
new_event e param p = record {
  name = take (name_size - 1) param.name;
  file = null;
  handle = p;
  owner_count = 0;
  lock_count = 0;
  unlock_count = 0;
  event = sem_init e 1;
  flag = 0;
  id = event_id;
}

-- A null `param` ends at `event->event_handle` of a null entry.
unfoldable pub ipc_event_create : Env → Option CreateParam → Cmd Ptr
unfolding wait_lock post_lock open_entry new_event
ipc_event_create e none = fails
ipc_event_create e (some param) = do
  wait_lock events
  handle ← open_entry events e param.name (λ p. pure (new_event e param p))
  post_lock events e
  pure handle

-- `sem_wait` or `sem_timedwait` on the entry, then `++event_lock_count`; a failed timed wait answers
-- with its result, -1. The result of
-- `sem_wait` is not looked at, so a wait that a signal ends counts as a lock.
unfoldable pub take_event : Env → LockParam → Cmd ℤ
unfolding load store increment ms_to_timespec
take_event e param = do
  s ← load events param.handle
  if s.event == 0
      then (elim param.timeout [
        | ℤ.negsuc _ ↦
            if e.interrupted
            then (do
              store param.handle (some (a_event (record s { lock_count = increment s.lock_count })))
              pure (pos 0))
            else hangs
        | pos ms ↦ pure (neg 1)
      ])
      else (do
        store param.handle
            (some (a_event (record s { event = s.event - 1; lock_count = increment s.lock_count })))
        pure (pos 0))

-- The trace line reads `param` before the test for NULL.
unfoldable pub ipc_event_lock : Env → Option LockParam → Cmd ℤ
unfolding no_driver wait_lock read_id post_lock take_event
ipc_event_lock e none = fails
ipc_event_lock e (some param) = do
  no_drv ← no_driver
  if no_drv || param.handle == null then pure invalid else (do
    wait_lock events
    id ← read_id events param.handle
    post_lock events e
    if id == event_id then take_event e param else pure invalid)

unfoldable pub give_event : Env → Ptr → Cmd ℤ
unfolding load store sem_post decrement
give_event e handle = do
  s ← load events handle
  store handle (
      some (a_event (record s { event = sem_post e s.event; lock_count = decrement s.lock_count })))
  pure (pos 0)

unfoldable pub ipc_event_unlock : Env → Option UnlockParam → Cmd ℤ
unfolding no_driver wait_lock read_id post_lock give_event
ipc_event_unlock e none = pure invalid
ipc_event_unlock e (some param) = do
  no_drv ← no_driver
  if no_drv || param.handle == null then pure invalid else (do
    wait_lock events
    id ← read_id events param.handle
    post_lock events e
    if id == event_id then give_event e param.handle else pure invalid)

-- The identifier is compared with that of a mutex.
unfoldable pub ipc_event_close : Env → Option CloseParam → Cmd ℤ
unfolding no_driver wait_lock read_id post_lock close_entry
ipc_event_close e none = pure invalid
ipc_event_close e (some param) = do
  no_drv ← no_driver
  if no_drv || param.handle == null then pure invalid else (do
    wait_lock events
    id ← read_id events param.handle
    error ← (if id == mutex_id then close_entry events param.handle else pure invalid)
    post_lock events e
    pure error)

-- The same comparison, and then what ipc_event_unlock does.
unfoldable pub ipc_event_reset : Env → Option ResetParam → Cmd ℤ
unfolding no_driver wait_lock read_id post_lock give_event
ipc_event_reset e none = pure invalid
ipc_event_reset e (some param) = do
  no_drv ← no_driver
  if no_drv || param.handle == null then pure invalid else (do
    wait_lock events
    id ← read_id events param.handle
    post_lock events e
    if id == mutex_id then give_event e param.handle else pure invalid)

unfoldable pub ipc_event_close_all : Env → Cmd ℤ
unfolding no_driver wait_lock post_lock close_entries
ipc_event_close_all e = do
  no_drv ← no_driver
  if no_drv then pure invalid else (do
    wait_lock events
    used ← close_entries events
    post_lock events e
    pure (if used == 0 then pos 0 else busy))
