-- ===== src/Client/MutexIpc.antt =====
-- qnx/insys/mutexipc.cpp. The descriptor of the device is `fd`.
use gipcy.Base.{◌-◌, ℤ, pos, neg, Bool, if◌then◌else◌, take}
use gipcy.Driver.Ioctl.{
  Ptr, null, Name, name_size, mutex_open, mutex_lock, mutex_unlock, mutex_close,
}
use gipcy.Driver.Machine.{Env, Cmd}
use gipcy.Client.Requests.{Link, open_object, call_object}

-- A mutex that is created captured starts with the count 0.
unfoldable pub ipc_create_mutex : Link → Env → ℤ → Name → Bool → Cmd Ptr
unfolding open_object
ipc_create_mutex l e fd name value = open_object l e fd (
    mutex_open (record {
      name = take (name_size - 1) name;
      value = if value then pos 0 else pos 1;
      flag = pos 0;
      handle = null;
    }))

unfoldable pub ipc_capture_mutex : Link → Env → ℤ → Ptr → ℤ → Cmd ℤ
unfolding call_object
ipc_capture_mutex l e fd handle timeout =
    call_object l e fd (λ res. neg 1) (mutex_lock (record { handle = handle; timeout = timeout }))

unfoldable pub ipc_release_mutex : Link → Env → ℤ → Ptr → Cmd ℤ
unfolding call_object
ipc_release_mutex l e fd handle =
    call_object l e fd (λ res. neg 1) (mutex_unlock (record { handle = handle }))

unfoldable pub ipc_delete_mutex : Link → Env → ℤ → Ptr → Cmd ℤ
unfolding call_object
ipc_delete_mutex l e fd handle =
    call_object l e fd (λ res. neg 1) (mutex_close (record { handle = handle }))
