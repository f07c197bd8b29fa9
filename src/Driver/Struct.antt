-- ===== src/Driver/Struct.antt =====
-- What the four structures have in common for the driver's loops over its lists: each is an object
-- of its own kind with a name and a count of owners, is read by its own view of the identifier, and
-- has a list and a lock in `struct ipc_driver`. The loops and their theorems take this record,
-- and the four values below fill it.
use gipcy.Base.{ℕ, ◌-◌, ◌≡◌, refl, List, Option, none, some, ◌==◌, if◌then◌else◌}
use gipcy.Driver.Ioctl.{Ptr, null, Name}
use gipcy.Driver.Objects.{
  Sem, Mutex, Event, Shm, Object, a_sem, a_mutex, a_event, a_shm, sem_word, event_word, shm_word,
  increment, Driver, sem_id, mutex_id, event_id, shm_id,
}
use gipcy.Driver.Machine.{
  Env, ok, fault, Cmd, hangs, ◌>>=◌, get_driver, put_driver, store, sem_post,
}

pub record Struct (A : Type 0) : Type 0 where
  pub inject : A → Object
  pub view : Object → Option A
  pub name : A → Name
  pub handle : A → Ptr
  pub owner_count : A → ℕ
  pub with_owners : A → ℕ → A
  pub id_word : Object → Option ℕ
  pub magic : ℕ
  pub list : Driver → List Ptr
  pub with_list : Driver → List Ptr → Driver
  pub lock : Driver → ℕ
  pub with_lock : Driver → ℕ → Driver
  pub view-inject : (a : A) → view (inject a) ≡ some a
  pub name-with_owners : (a : A) (n : ℕ) → name (with_owners a n) ≡ name a
  pub handle-with_owners : (a : A) (n : ℕ) → handle (with_owners a n) ≡ handle a
  pub owner_count-with_owners : (a : A) (n : ℕ) → owner_count (with_owners a n) ≡ n
  pub id_word-with_owners :
      (a : A) (n : ℕ) → id_word (inject (with_owners a n)) ≡ id_word (inject a)
  pub with_owners-with_owners :
      (a : A) (m n : ℕ) → with_owners (with_owners a m) n ≡ with_owners a n
  pub with_list-list : (d : Driver) → with_list d (list d) ≡ d
  pub list-with_list : (d : Driver) (ps : List Ptr) → list (with_list d ps) ≡ ps
  pub lock-with_list : (d : Driver) (ps : List Ptr) → lock (with_list d ps) ≡ lock d
  pub list-with_lock : (d : Driver) (n : ℕ) → list (with_lock d n) ≡ list d
  pub lock-with_lock : (d : Driver) (n : ℕ) → lock (with_lock d n) ≡ n
  pub with_lock-lock : (d : Driver) → with_lock d (lock d) ≡ d
  pub with_lock-with_lock : (d : Driver) (n k : ℕ) → with_lock (with_lock d n) k ≡ with_lock d k
  pub with_lock_back : (d : Driver) (n : ℕ) → with_lock (with_lock d n) (lock d) ≡ d
  pub with_lock-with_list :
      (d : Driver) (n k : ℕ) (ps : List Ptr)
      → with_lock (with_list (with_lock d n) ps) k ≡ with_lock (with_list d ps) k

abbrev pub sem_view : Object → Option Sem
sem_view (a_sem s) = some s
sem_view _ = none

abbrev pub mutex_view : Object → Option Mutex
mutex_view (a_mutex s) = some s
mutex_view _ = none

abbrev pub event_view : Object → Option Event
event_view (a_event s) = some s
event_view _ = none

abbrev pub shm_view : Object → Option Shm
shm_view (a_shm s) = some s
shm_view _ = none

abbrev pub sems : Struct Sem
sems = record {
  inject = a_sem;
  view = sem_view;
  name = λ a. a.name;
  handle = λ a. a.handle;
  owner_count = λ a. a.owner_count;
  with_owners = λ a n. record a { owner_count = n };
  id_word = sem_word;
  magic = sem_id;
  list = λ d. d.sem_list;
  with_list = λ d ps. record d { sem_list = ps };
  lock = λ d. d.sem_lock;
  with_lock = λ d n. record d { sem_lock = n };
  view-inject = λ a. refl;
  name-with_owners = λ a n. refl;
  handle-with_owners = λ a n. refl;
  owner_count-with_owners = λ a n. refl;
  id_word-with_owners = λ a n. refl;
  with_owners-with_owners = λ a m n. refl;
  with_list-list = λ d. refl;
  list-with_list = λ d ps. refl;
  lock-with_list = λ d ps. refl;
  list-with_lock = λ d n. refl;
  lock-with_lock = λ d n. refl;
  with_lock-lock = λ d. refl;
  with_lock-with_lock = λ d n k. refl;
  with_lock_back = λ d n. refl;
  with_lock-with_list = λ d n k ps. refl;
}

abbrev pub mutexes : Struct Mutex
mutexes = record {
  inject = a_mutex;
  view = mutex_view;
  name = λ a. a.name;
  handle = λ a. a.handle;
  owner_count = λ a. a.owner_count;
  with_owners = λ a n. record a { owner_count = n };
  id_word = sem_word;
  magic = mutex_id;
  list = λ d. d.mutex_list;
  with_list = λ d ps. record d { mutex_list = ps };
  lock = λ d. d.mutex_lock;
  with_lock = λ d n. record d { mutex_lock = n };
  view-inject = λ a. refl;
  name-with_owners = λ a n. refl;
  handle-with_owners = λ a n. refl;
  owner_count-with_owners = λ a n. refl;
  id_word-with_owners = λ a n. refl;
  with_owners-with_owners = λ a m n. refl;
  with_list-list = λ d. refl;
  list-with_list = λ d ps. refl;
  lock-with_list = λ d ps. refl;
  list-with_lock = λ d n. refl;
  lock-with_lock = λ d n. refl;
  with_lock-lock = λ d. refl;
  with_lock-with_lock = λ d n k. refl;
  with_lock_back = λ d n. refl;
  with_lock-with_list = λ d n k ps. refl;
}

abbrev pub events : Struct Event
events = record {
  inject = a_event;
  view = event_view;
  name = λ a. a.name;
  handle = λ a. a.handle;
  owner_count = λ a. a.owner_count;
  with_owners = λ a n. record a { owner_count = n };
  id_word = event_word;
  magic = event_id;
  list = λ d. d.event_list;
  with_list = λ d ps. record d { event_list = ps };
  lock = λ d. d.event_lock;
  with_lock = λ d n. record d { event_lock = n };
  view-inject = λ a. refl;
  name-with_owners = λ a n. refl;
  handle-with_owners = λ a n. refl;
  owner_count-with_owners = λ a n. refl;
  id_word-with_owners = λ a n. refl;
  with_owners-with_owners = λ a m n. refl;
  with_list-list = λ d. refl;
  list-with_list = λ d ps. refl;
  lock-with_list = λ d ps. refl;
  list-with_lock = λ d n. refl;
  lock-with_lock = λ d n. refl;
  with_lock-lock = λ d. refl;
  with_lock-with_lock = λ d n k. refl;
  with_lock_back = λ d n. refl;
  with_lock-with_list = λ d n k ps. refl;
}

abbrev pub shms : Struct Shm
shms = record {
  inject = a_shm;
  view = shm_view;
  name = λ a. a.name;
  handle = λ a. a.handle;
  owner_count = λ a. a.owner_count;
  with_owners = λ a n. record a { owner_count = n };
  id_word = shm_word;
  magic = shm_id;
  list = λ d. d.shm_list;
  with_list = λ d ps. record d { shm_list = ps };
  lock = λ d. d.shm_lock;
  with_lock = λ d n. record d { shm_lock = n };
  view-inject = λ a. refl;
  name-with_owners = λ a n. refl;
  handle-with_owners = λ a n. refl;
  owner_count-with_owners = λ a n. refl;
  id_word-with_owners = λ a n. refl;
  with_owners-with_owners = λ a m n. refl;
  with_list-list = λ d. refl;
  list-with_list = λ d ps. refl;
  lock-with_list = λ d ps. refl;
  list-with_lock = λ d n. refl;
  lock-with_lock = λ d n. refl;
  with_lock-lock = λ d. refl;
  with_lock-with_lock = λ d n k. refl;
  with_lock_back = λ d n. refl;
  with_lock-with_list = λ d n k ps. refl;
}

module _ {A : Type 0} (S : Struct A) where
  -- `*p` at this type: a fault at NULL, at a freed address and at an object of another type.
  unfoldable pub load : Ptr → Cmd A
  load p w = if p == null then fault else elim (w.mem p) [
    | none ↦ fault
    | some o ↦ elim (S.view o) [ none ↦ fault | some a ↦ ok a w ]
  ]

  -- `++p->owner_count`.
  unfoldable pub add_owner : Ptr → Cmd (Unit {0})
  unfolding load
  add_owner p = do
    a ← load p
    store p (some (S.inject (S.with_owners a (increment (S.owner_count a)))))

  -- The word where a structure of this type has its identifier, read through any pointer.
  unfoldable pub read_id : Ptr → Cmd ℕ
  read_id p w = elim (w.mem p) [
    | none ↦ fault
    | some o ↦ elim (S.id_word o) [ none ↦ fault | some n ↦ ok n w ]
  ]

  -- `sem_wait(&drv->m_*_lock)` and `sem_post(&drv->m_*_lock)`. Signals are left aside here: the driver has
  -- one thread and every request that takes a lock gives it back, so that there is no wait to end.
  unfoldable pub wait_lock : Cmd (Unit {0})
  unfolding get_driver put_driver
  wait_lock = do
    d ← get_driver
    if S.lock d == 0 then hangs else put_driver (S.with_lock d (S.lock d - 1))

  unfoldable pub post_lock : Env → Cmd (Unit {0})
  unfolding get_driver put_driver sem_post
  post_lock e = do d ← get_driver; put_driver (S.with_lock d (sem_post e (S.lock d)))
