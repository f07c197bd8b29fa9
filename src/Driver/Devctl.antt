-- ===== src/Driver/Devctl.antt =====
-- `io_devctl` of qnx/ipcdrv/resmgr.cpp. What the C library's `iofunc_devctl_default` answers is a
-- parameter: `none` stands for _RESMGR_DEFAULT, with which the handler goes on.
pub mod Safety
use gipcy.Base.{ℤ, is_neg, Option, none, some, ◌==◌, if◌then◌else◌}
use gipcy.Driver.Ioctl.{
  Ptr, null, invalid, Request, sem_open, sem_lock, sem_unlock, sem_close, mutex_open, mutex_lock,
  mutex_unlock, mutex_close, event_open, event_lock, event_unlock, event_reset, event_close,
  shm_open, shm_close, unknown,
}
use gipcy.Driver.Machine.{Env, Cmd, pure, ◌>>=◌}
use gipcy.Driver.SemPart.{ipc_sem_create, ipc_sem_lock, ipc_sem_unlock, ipc_sem_close}
use gipcy.Driver.MutexPart.{ipc_mutex_create, ipc_mutex_lock, ipc_mutex_unlock, ipc_mutex_close}
use gipcy.Driver.EventPart.{
  ipc_event_create, ipc_event_lock, ipc_event_unlock, ipc_event_reset, ipc_event_close,
}
use gipcy.Driver.ShmPart.{ipc_shm_open, ipc_shm_close}

-- What the handler returns: an error, or the reply of _RESMGR_PTR with `ret_val` 0, which carries the
-- data area back (here, the handle in it) or nothing.
pub data Response : Type 0 where
  error : ℤ → Response
  reply : Option Ptr → Response

-- `ipc_param->handle = …; if(!ipc_param->handle) …`.
unfoldable pub opened : Ptr → Response
opened handle = if handle == null then error invalid else reply (some handle)

-- `if(error < 0) return error;`, else the reply at the end of the handler.
unfoldable pub answered : ℤ → Response
answered result = if is_neg result then error result else reply none

unfoldable pub dispatch : Env → Request → Cmd Response
unfolding opened answered
dispatch e (sem_open param) = do h ← ipc_sem_create e (some param); pure (opened h)
dispatch e (sem_lock param) = do r ← ipc_sem_lock e (some param); pure (answered r)
dispatch e (sem_unlock param) = do r ← ipc_sem_unlock e (some param); pure (answered r)
dispatch e (sem_close param) = do r ← ipc_sem_close e (some param); pure (answered r)
dispatch e (mutex_open param) = do h ← ipc_mutex_create e (some param); pure (opened h)
dispatch e (mutex_lock param) = do r ← ipc_mutex_lock e (some param); pure (answered r)
dispatch e (mutex_unlock param) = do r ← ipc_mutex_unlock e (some param); pure (answered r)
dispatch e (mutex_close param) = do r ← ipc_mutex_close e (some param); pure (answered r)
dispatch e (event_open param) = do h ← ipc_event_create e (some param); pure (opened h)
dispatch e (event_lock param) = do r ← ipc_event_lock e (some param); pure (answered r)
dispatch e (event_unlock param) = do r ← ipc_event_unlock e (some param); pure (answered r)
dispatch e (event_close param) = do r ← ipc_event_close e (some param); pure (answered r)
dispatch e (event_reset param) = do r ← ipc_event_reset e (some param); pure (answered r)
dispatch e (shm_open param) = do h ← ipc_shm_open e (some param); pure (opened h)
dispatch e (shm_close param) = do r ← ipc_shm_close e (some param); pure (answered r)
dispatch e unknown = pure (error invalid)

unfoldable pub io_devctl : Env → Option ℤ → Request → Cmd Response
unfolding dispatch
io_devctl e (some result) request = pure (error result)
io_devctl e none request = dispatch e request
