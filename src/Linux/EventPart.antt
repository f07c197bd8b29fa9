-- ===== src/Linux/EventPart.antt =====
-- linux/ipcdrv/ipcevent.c. The tests of `drv` and `param` for NULL are left out: ioctlrw.c passes
-- neither.
use gipcy.Base.{ℕ, ℤ, pos, negsuc, List, take, ◌==◌, if◌then◌else◌}
use gipcy.Driver.Ioctl.{Ptr}
use gipcy.Linux.Ioctl.{CreateParam, LockParam, UnlockParam, ResetParam, CloseParam, timed_out}
use gipcy.Linux.Objects.{Event, event_id, Driver}
use gipcy.Linux.Kernel.{Kernel, Ran, done, ◌>>=◌, atomic_inc, atomic_dec, down, down_timeout, up}
use gipcy.Linux.Entries.{Kind, use_entry, open_entry, close_entry, close_all}

abbrev pub events : Kind Event
events = record {
  name = λ a. a.name;
  owner_count = λ a. a.owner_count;
  with_owners = λ a n. record a { owner_count = n };
  id = λ a. a.id;
  magic = event_id;
}

abbrev pub put_events : Driver → List (Ptr × Event) → Driver
put_events d cs = record d { event_list = cs }

-- The new entry of ipc_event_create, whatever `value` and `flag` the program asks for.
abbrev pub new_event : CreateParam → Ptr → Event
new_event param p = record {
  name = take 127 param.name;
  handle = p;
  owner_count = 0;
  lock_count = 0;
  event = 1;
  flag = 0;
  id = event_id;
}

unfoldable pub ipc_event_create : Kernel → CreateParam → Driver → Ptr × Driver
ipc_event_create e param d =
    let (handle, cs) = open_entry events e param.name (new_event param) d.event_list in
    (handle, put_events d cs)

abbrev pub waited_event : Event → ℤ × ℕ → ℤ × Event
waited_event a (pos n, count) =
    (pos n, record a { event = count; lock_count = atomic_inc a.lock_count })
waited_event a (negsuc n, count) = (timed_out, record a { event = count })

unfoldable pub lock_event : ℤ → Event → Ran (ℤ × Event)
lock_event (negsuc n) a = do count ← down a.event; done (waited_event a (pos 0, count))
lock_event (pos n) a = done (waited_event a (down_timeout a.event))

unfoldable pub ipc_event_lock : Kernel → LockParam → Driver → Ran (ℤ × Driver)
ipc_event_lock e param d = do
  (error, cs) ← use_entry events e param.handle (lock_event param.timeout) d.event_list
  done (error, put_events d cs)

unfoldable pub unlock_event : Event → Ran (ℤ × Event)
unlock_event a =
    if a.lock_count == 0
    then done (pos 0, a)
    else done (pos 0, record a { event = up a.event; lock_count = atomic_dec a.lock_count })

unfoldable pub ipc_event_unlock : Kernel → UnlockParam → Driver → Ran (ℤ × Driver)
ipc_event_unlock e param d = do
  (error, cs) ← use_entry events e param.handle unlock_event d.event_list
  done (error, put_events d cs)

unfoldable pub ipc_event_close : Kernel → CloseParam → Driver → Ran (ℤ × Driver)
ipc_event_close e param d = do
  (error, cs) ← close_entry events e param.handle d.event_list
  done (error, put_events d cs)

unfoldable pub reset_event : Event → Ran (ℤ × Event)
reset_event a =
    if a.lock_count == 0
    then done (pos 0, a)
    else done (pos 0, record a { event = up a.event; lock_count = atomic_dec a.lock_count })

unfoldable pub ipc_event_reset : Kernel → ResetParam → Driver → Ran (ℤ × Driver)
ipc_event_reset e param d = do
  (error, cs) ← use_entry events e param.handle reset_event d.event_list
  done (error, put_events d cs)

unfoldable pub ipc_event_close_all : Driver → ℤ × Driver
ipc_event_close_all d = let (error, cs) = close_all events d.event_list in (error, put_events d cs)
