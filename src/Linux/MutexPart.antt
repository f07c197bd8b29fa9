-- ===== src/Linux/MutexPart.antt =====
-- linux/ipcdrv/ipcmutex.c. The tests of `drv` and `param` for NULL are left out: ioctlrw.c passes
-- neither.
use gipcy.Base.{ℕ, ℤ, pos, negsuc, Bool, false, List, take, ◌==◌, if◌then◌else◌}
use gipcy.Driver.Ioctl.{Ptr}
use gipcy.Linux.Ioctl.{CreateParam, LockParam, UnlockParam, CloseParam}
use gipcy.Linux.Objects.{Mutex, mutex_id, Driver}
use gipcy.Linux.Kernel.{
  Kernel, Ran, done, ◌>>=◌, atomic_inc, atomic_dec, down_interruptible, down_timeout, up,
}
use gipcy.Linux.Entries.{Kind, use_entry, open_entry, close_entry, close_all}

abbrev pub mutexes : Kind Mutex
mutexes = record {
  name = λ a. a.name;
  owner_count = λ a. a.owner_count;
  with_owners = λ a n. record a { owner_count = n };
  id = λ a. a.id;
  magic = mutex_id;
}

abbrev pub put_mutexes : Driver → List (Ptr × Mutex) → Driver
put_mutexes d cs = record d { mutex_list = cs }

-- `==` on two ints.
abbrev pub same_int : ℤ → ℤ → Bool
same_int (pos m) (pos n) = m == n
same_int (negsuc m) (negsuc n) = m == n
same_int _ _ = false

abbrev pub unlocked_mutex : CreateParam → Ptr → Mutex
unlocked_mutex param p = record {
  name = take 127 param.name;
  handle = p;
  owner_count = 0;
  lock_count = 0;
  lockerid = pos 0;
  mutex = 1;
  id = mutex_id;
}

-- The new entry of ipc_mutex_create; `down_interruptible` gets the new semaphore at once.
abbrev pub new_mutex : CreateParam → Ptr → Mutex
new_mutex param p =
    if same_int param.value (pos 0)
    then unlocked_mutex param p
    else record (unlocked_mutex param p) {
      mutex = 0;
      lockerid = param.lockerid;
      lock_count = atomic_inc 0;
    }

unfoldable pub ipc_mutex_create : Kernel → CreateParam → Driver → Ptr × Driver
ipc_mutex_create e param d =
    let (handle, cs) = open_entry mutexes e param.name (new_mutex param) d.mutex_list in
    (handle, put_mutexes d cs)

-- The result and the entry of a request that has taken the semaphore, or has not. A wait without a
-- limit counts as taken whatever `down_interruptible` returns.
abbrev pub taken_mutex : Mutex → ℤ → ℤ × ℕ → ℤ × Mutex
taken_mutex a lockerid (pos n, count) =
    (pos n, record a { mutex = count; lock_count = atomic_inc a.lock_count; lockerid = lockerid })
taken_mutex a lockerid (negsuc n, count) = (negsuc n, record a { mutex = count })

abbrev pub take_mutex : Kernel → LockParam → ℤ → Mutex → Ran (ℤ × Mutex)
take_mutex e param (negsuc n) a = do
  (_, count) ← down_interruptible e a.mutex
  done (taken_mutex a param.lockerid (pos 0, count))
take_mutex e param (pos n) a = done (taken_mutex a param.lockerid (down_timeout a.mutex))

-- The locker that has the mutex gets it again at once.
unfoldable pub lock_mutex : Kernel → LockParam → Mutex → Ran (ℤ × Mutex)
lock_mutex e param a =
    if same_int a.lockerid param.lockerid
    then done (pos 0, a)
    else take_mutex e param param.timeout a

unfoldable pub ipc_mutex_lock : Kernel → LockParam → Driver → Ran (ℤ × Driver)
ipc_mutex_lock e param d = do
  (error, cs) ← use_entry mutexes e param.handle (lock_mutex e param) d.mutex_list
  done (error, put_mutexes d cs)

abbrev pub give_mutex : Mutex → Mutex
give_mutex a = record a {
  lockerid = pos 0;
  mutex = up a.mutex;
  lock_count = atomic_dec a.lock_count;
}

-- Another locker's request is answered 0 and does nothing.
unfoldable pub unlock_mutex : UnlockParam → Mutex → Ran (ℤ × Mutex)
unlock_mutex param a =
    if same_int a.lockerid param.lockerid then done (pos 0, give_mutex a) else done (pos 0, a)

unfoldable pub ipc_mutex_unlock : Kernel → UnlockParam → Driver → Ran (ℤ × Driver)
ipc_mutex_unlock e param d = do
  (error, cs) ← use_entry mutexes e param.handle (unlock_mutex param) d.mutex_list
  done (error, put_mutexes d cs)

unfoldable pub ipc_mutex_close : Kernel → CloseParam → Driver → Ran (ℤ × Driver)
ipc_mutex_close e param d = do
  (error, cs) ← close_entry mutexes e param.handle d.mutex_list
  done (error, put_mutexes d cs)

unfoldable pub ipc_mutex_close_all : Driver → ℤ × Driver
ipc_mutex_close_all d =
    let (error, cs) = close_all mutexes d.mutex_list in (error, put_mutexes d cs)
