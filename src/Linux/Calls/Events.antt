-- ===== src/Linux/Calls/Events.antt =====
-- What the calls on events do on Linux.
use gipcy.Base.{
  ◌≡◌, refl, sym, ap, ◌∙◌, ℤ, List, pos, Bool, true, none, some, ◌==◌, ==_iff, if◌then◌else◌, inl,
  inr, Bool-cases, is_neg, take,
}
use gipcy.Driver.Ioctl.{Ptr, null, Name}
use gipcy.Driver.Table.Cells.{at}
use gipcy.Linux.Ioctl.{invalid, CreateParam}
use gipcy.Linux.Objects.{Event, Driver}
use gipcy.Linux.Kernel.{Kernel, done, container_of}
use gipcy.Linux.Entries.{use_entry, open_entry}
use gipcy.Linux.Entries.Steps.{Harmless, use_entry-absent}
use gipcy.Linux.EventPart.{
  events, put_events, new_event, lock_event, unlock_event, reset_event, ipc_event_create,
  ipc_event_lock, ipc_event_unlock, ipc_event_reset,
}
use gipcy.Linux.Rw.{
  answer, copy_back, ioctl_event_open, ioctl_event_lock, ioctl_event_unlock, ioctl_event_reset,
}
use gipcy.Linux.Module.{ipc_device_ioctl}
use gipcy.Linux.Safety.{OneWaiter, DriverSound}
use gipcy.Linux.Calls.{
  is_open, ipc_driver_handle, create_object, use_object, ipc_ok, opened_handle, called, own,
}
use gipcy.Linux.Calls.EventIpc.{
  wait_failed, ipc_create_event, ipc_wait_event, ipc_set_event, ipc_reset_event,
}
use gipcy.Linux.Calls.Sessions.{use_object-answer}

-- IPC_resetEvent does what IPC_setEvent does, for every handle and in every state.
pub ipc_reset_event-set :
    (e : Kernel) (fd : ℤ) (h : Ptr) (d : Driver) → ipc_reset_event e fd h d ≡ ipc_set_event e fd h d
unfolding ipc_reset_event ipc_set_event use_object ipc_device_ioctl ioctl_event_unlock
    ioctl_event_reset ipc_event_unlock ipc_event_reset unlock_event reset_event
ipc_reset_event-set e fd h d = refl

-- The program gets the handle that the driver returned.
handle_back :
    (param : CreateParam) (h : Ptr) → opened_handle (called (copy_back (own param) param h)) ≡ h
handle_back param h = elim (Bool-cases (h == null)) [
  | inl zero_handle ↦ ap back zero_handle ∙ sym ((==_iff h null).0 zero_handle)
  | inr other ↦ ap back other
]
  where
    back : Bool → Ptr
    back b = opened_handle (
        called (
          if b
          then answer invalid
          else record { error = pos 0; written = some (record param { handle = h }) }))

-- IPC_createEvent does the same whatever kind of event and whatever initial state the program asks for.
pub ipc_create_event-same :
    (e : Kernel) (fd : ℤ) (name : Name) (manual manual' value value' : Bool) (d : Driver)
    → ipc_create_event e fd name manual value d ≡ ipc_create_event e fd name manual' value' d
unfolding ipc_create_event create_object ipc_device_ioctl ioctl_event_open ipc_event_create
ipc_create_event-same e fd name manual manual' value value' d =
    elim (Bool-cases (is_neg (ipc_driver_handle fd))) [
      | inl shut ↦ rw shut refl
      | inr usable ↦ rw usable (
          ap (λ p. done (p, put_events d opened.1)) (handle_back (asked manual value) opened.0)
          ∙ sym (
              ap (λ p. done (p, put_events d opened.1))
                (handle_back (asked manual' value') opened.0)))
    ]
  where
    asked : Bool → Bool → CreateParam
    asked manual value = record {
      name = take 127 name;
      value = if value then pos 0 else pos 1;
      flag = if manual then pos 1 else pos 0;
      lockerid = pos 0;
      handle = null;
    }

    opened : Ptr × List (Ptr × Event)
    opened = open_entry events e (take 127 name) (new_event (asked true true)) d.event_list

-- In a sound driver, with the device open: a wait for an event through a handle that belongs to no event
-- of the driver, and behind which the kernel can read memory that has not the identifier of an event,
-- returns IPC_OK at once, whatever the timeout, as if the event had been set, and changes nothing.
pub ipc_wait_event-unknown :
    (e : Kernel) (fd : ℤ) (h : Ptr) (t : ℤ) (d : Driver)
    → is_open fd ≡ true
    → DriverSound d
    → at (container_of h) d.event_list ≡ none
    → Harmless events OneWaiter e h d.event_list
    → ipc_wait_event e fd h t d ≡ done (ipc_ok, d)
unfolding ipc_wait_event ipc_device_ioctl ioctl_event_lock ipc_event_lock
ipc_wait_event-unknown e fd h t d opens s absent harmless =
    use_object-answer e fd wait_failed _ d d invalid opens (rw refused refl)
  where
    refused : use_entry events e h (lock_event t) d.event_list ≡ done (invalid, d.event_list)
    refused =
        use_entry-absent events OneWaiter e h (lock_event t) d.event_list s.event_table harmless
          absent
