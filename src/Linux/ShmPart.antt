-- ===== src/Linux/ShmPart.antt =====
-- linux/ipcdrv/ipcshm.c: the driver keeps names and owners only, the memory is the client's. The tests
-- of `drv` and `param` for NULL are left out: ioctlrw.c passes neither.
use gipcy.Base.{ℤ, List, take}
use gipcy.Driver.Ioctl.{Ptr}
use gipcy.Linux.Ioctl.{CreateParam, CloseParam}
use gipcy.Linux.Objects.{Shm, shm_id, Driver}
use gipcy.Linux.Kernel.{Kernel, Ran, done, ◌>>=◌}
use gipcy.Linux.Entries.{Kind, open_entry, close_entry, close_all}

abbrev pub shms : Kind Shm
shms = record {
  name = λ a. a.name;
  owner_count = λ a. a.owner_count;
  with_owners = λ a n. record a { owner_count = n };
  id = λ a. a.id;
  magic = shm_id;
}

abbrev pub put_shms : Driver → List (Ptr × Shm) → Driver
put_shms d cs = record d { shm_list = cs }

-- The new entry of ipc_shm_open.
abbrev pub new_shm : CreateParam → Ptr → Shm
new_shm param p = record { name = take 127 param.name; handle = p; owner_count = 0; id = shm_id }

unfoldable pub ipc_shm_open : Kernel → CreateParam → Driver → Ptr × Driver
ipc_shm_open e param d =
    let (handle, cs) = open_entry shms e param.name (new_shm param) d.shm_list in
    (handle, put_shms d cs)

unfoldable pub ipc_shm_close : Kernel → CloseParam → Driver → Ran (ℤ × Driver)
ipc_shm_close e param d = do
  (error, cs) ← close_entry shms e param.handle d.shm_list
  done (error, put_shms d cs)

unfoldable pub ipc_shm_close_all : Driver → ℤ × Driver
ipc_shm_close_all d = let (error, cs) = close_all shms d.shm_list in (error, put_shms d cs)
