-- ===== src/Linux/SemPart.antt =====
-- linux/ipcdrv/ipcsem.c. The tests of `drv` and `param` for NULL are left out: ioctlrw.c passes neither.
use gipcy.Base.{ℕ, ℤ, pos, negsuc, to_unsigned, List, take}
use gipcy.Driver.Ioctl.{Ptr}
use gipcy.Linux.Ioctl.{CreateParam, LockParam, UnlockParam, CloseParam}
use gipcy.Linux.Objects.{Sem, sem_id, Driver}
use gipcy.Linux.Kernel.{Kernel, Ran, done, ◌>>=◌, atomic_inc, atomic_dec, down, down_timeout, up}
use gipcy.Linux.Entries.{Kind, use_entry, open_entry, close_entry, close_all}

abbrev pub sems : Kind Sem
sems = record {
  name = λ a. a.name;
  owner_count = λ a. a.owner_count;
  with_owners = λ a n. record a { owner_count = n };
  id = λ a. a.id;
  magic = sem_id;
}

abbrev pub put_sems : Driver → List (Ptr × Sem) → Driver
put_sems d cs = record d { sem_list = cs }

-- The new entry of ipc_sem_create, zeroed by `kzalloc`.
abbrev pub new_sem : CreateParam → Ptr → Sem
new_sem param p = record {
  name = take 127 param.name;
  handle = p;
  owner_count = 0;
  lock_count = 0;
  sem = to_unsigned param.value;
  id = sem_id;
}

unfoldable pub ipc_sem_create : Kernel → CreateParam → Driver → Ptr × Driver
ipc_sem_create e param d =
    let (handle, cs) = open_entry sems e param.name (new_sem param) d.sem_list in
    (handle, put_sems d cs)

abbrev pub waited_sem : Sem → ℤ × ℕ → ℤ × Sem
waited_sem a (pos n, count) =
    (pos n, record a { sem = count; lock_count = atomic_inc a.lock_count })
waited_sem a (negsuc n, count) = (negsuc n, record a { sem = count })

unfoldable pub lock_sem : ℤ → Sem → Ran (ℤ × Sem)
lock_sem (negsuc n) a = do count ← down a.sem; done (waited_sem a (pos 0, count))
lock_sem (pos n) a = done (waited_sem a (down_timeout a.sem))

unfoldable pub ipc_sem_lock : Kernel → LockParam → Driver → Ran (ℤ × Driver)
ipc_sem_lock e param d = do
  (error, cs) ← use_entry sems e param.handle (lock_sem param.timeout) d.sem_list
  done (error, put_sems d cs)

unfoldable pub unlock_sem : Sem → Ran (ℤ × Sem)
unlock_sem a = done (pos 0, record a { sem = up a.sem; lock_count = atomic_dec a.lock_count })

unfoldable pub ipc_sem_unlock : Kernel → UnlockParam → Driver → Ran (ℤ × Driver)
ipc_sem_unlock e param d = do
  (error, cs) ← use_entry sems e param.handle unlock_sem d.sem_list
  done (error, put_sems d cs)

unfoldable pub ipc_sem_close : Kernel → CloseParam → Driver → Ran (ℤ × Driver)
ipc_sem_close e param d = do
  (error, cs) ← close_entry sems e param.handle d.sem_list
  done (error, put_sems d cs)

unfoldable pub ipc_sem_close_all : Driver → ℤ × Driver
ipc_sem_close_all d = let (error, cs) = close_all sems d.sem_list in (error, put_sems d cs)
