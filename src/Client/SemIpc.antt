-- ===== src/Client/SemIpc.antt =====
-- qnx/insys/semipc.cpp. The descriptor of the device is `fd`.
use gipcy.Base.{◌-◌, ◌++◌, [], ◌∷◌, ℤ, pos, neg, take}
use gipcy.Driver.Ioctl.{Ptr, null, Name, name_size, sem_open, sem_lock, sem_unlock, sem_close}
use gipcy.Driver.Machine.{Env, Cmd}
use gipcy.Client.Requests.{Link, open_object, call_object}

-- `value` is not used, and the name gets a line feed.
unfoldable pub ipc_create_semaphore : Link → Env → ℤ → Name → ℤ → Cmd Ptr
unfolding open_object
ipc_create_semaphore l e fd name value = open_object l e fd (
    sem_open (record {
      name = take (name_size - 1) (name ++ 10 ∷ []);
      value = pos 1;
      flag = pos 0;
      handle = null;
    }))

-- A failure is passed on as it is.
unfoldable pub ipc_lock_semaphore : Link → Env → ℤ → Ptr → ℤ → Cmd ℤ
unfolding call_object
ipc_lock_semaphore l e fd handle timeout =
    call_object l e fd (λ res. res) (sem_lock (record { handle = handle; timeout = timeout }))

unfoldable pub ipc_unlock_semaphore : Link → Env → ℤ → Ptr → Cmd ℤ
unfolding call_object
ipc_unlock_semaphore l e fd handle =
    call_object l e fd (λ res. neg 1) (sem_unlock (record { handle = handle }))

unfoldable pub ipc_delete_semaphore : Link → Env → ℤ → Ptr → Cmd ℤ
unfolding call_object
ipc_delete_semaphore l e fd handle =
    call_object l e fd (λ res. neg 1) (sem_close (record { handle = handle }))
