-- ===== src/Client/EventIpc.antt =====
-- qnx/insys/eventipc.cpp. The descriptor of the device is `fd`.
use gipcy.Base.{◌-◌, ℤ, pos, neg, Bool, if◌then◌else◌, take}
use gipcy.Driver.Ioctl.{
  Ptr, null, Name, name_size, event_open, event_lock, event_unlock, event_reset, event_close,
}
use gipcy.Driver.Machine.{Env, Cmd}
use gipcy.Client.Requests.{Link, open_object, call_object}

unfoldable pub ipc_create_event : Link → Env → ℤ → Name → Bool → Bool → Cmd Ptr
unfolding open_object
ipc_create_event l e fd name manual value = open_object l e fd (
    event_open (record {
      name = take (name_size - 1) name;
      value = if value then pos 0 else pos 1;
      flag = if manual then pos 1 else pos 0;
      handle = null;
    }))

unfoldable pub ipc_wait_event : Link → Env → ℤ → Ptr → ℤ → Cmd ℤ
unfolding call_object
ipc_wait_event l e fd handle timeout =
    call_object l e fd (λ res. neg 1) (event_lock (record { handle = handle; timeout = timeout }))

unfoldable pub ipc_set_event : Link → Env → ℤ → Ptr → Cmd ℤ
unfolding call_object
ipc_set_event l e fd handle =
    call_object l e fd (λ res. neg 1) (event_unlock (record { handle = handle }))

unfoldable pub ipc_reset_event : Link → Env → ℤ → Ptr → Cmd ℤ
unfolding call_object
ipc_reset_event l e fd handle =
    call_object l e fd (λ res. neg 1) (event_reset (record { handle = handle }))

unfoldable pub ipc_delete_event : Link → Env → ℤ → Ptr → Cmd ℤ
unfolding call_object
ipc_delete_event l e fd handle =
    call_object l e fd (λ res. neg 1) (event_close (record { handle = handle }))
