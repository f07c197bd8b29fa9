-- ===== src/Client/Requests.antt =====
-- How a request reaches the driver: `devctl` of the C library, and the parts that the calls share.
pub mod Sent
use gipcy.Base.{ℤ, is_neg, Option, none, some, if◌then◌else◌}
use gipcy.Driver.Ioctl.{Ptr, null, Request}
use gipcy.Driver.Machine.{Env, Cmd, pure, ◌>>=◌}
use gipcy.Driver.Devctl.{Response, error, reply, io_devctl}
use gipcy.Client.Device.{ipc_driver_handle}

-- The C library between a call and the handler: what `iofunc_devctl_default` answers to a request in
-- the driver, and what `devctl` returns to the client for a response.
pub record Link : Type 0 where
  pub default : Request → Option ℤ
  pub devctl : Response → ℤ

-- The handle in the data area after `devctl`, which was NULL before.
abbrev pub handle_in : Response → Ptr
handle_in (error n) = null
handle_in (reply none) = null
handle_in (reply (some p)) = p

-- `devctl(fd, …)`: its result, and the handle in the data area.
unfoldable pub send : Link → Env → Request → Cmd (ℤ × Ptr)
send l e request = do
  response ← io_devctl e (l.default request) request
  pure (l.devctl response, handle_in response)

-- A call that opens: NULL if the device is not open or `devctl` fails.
unfoldable pub open_object : Link → Env → ℤ → Request → Cmd Ptr
unfolding send
open_object l e fd request =
    if is_neg (ipc_driver_handle fd)
    then pure null
    else (do (res, handle) ← send l e request; pure (if is_neg res then null else handle))

-- A call that answers with a number, `failed` of a negative result of `devctl`.
unfoldable pub call_object : Link → Env → ℤ → (ℤ → ℤ) → Request → Cmd ℤ
unfolding send
call_object l e fd failed request =
    if is_neg (ipc_driver_handle fd)
    then pure (ℤ.negsuc 0)
    else (do (res, handle) ← send l e request; pure (if is_neg res then failed res else ℤ.pos 0))
