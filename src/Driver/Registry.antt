-- ===== src/Driver/Registry.antt =====
-- The abstract state of the driver: its four tables as lists of cells, and what it means that a world
-- realises it. An operation on one table writes one address at most, which was free or held an entry
-- of that table, so the three other tables stay as they are.
use gipcy.Base.{ℕ, ◌≡◌, refl, ap, ◌∙◌, ◌⊎◌, inl, inr, false, List, Option, none, some}
use gipcy.Driver.Ioctl.{Ptr, null}
use gipcy.Driver.Objects.{Sem, Mutex, Event, Shm, Object, Driver}
use gipcy.Driver.Machine.{
  Memory, World, world, Run, ok, fault, blocked, Returns, and_then, pure, write,
}
use gipcy.Driver.Struct.{Struct, sems, mutexes, events, shms}
use gipcy.Driver.Table.Cells.{has, at, Holds-write, has_of_none, has_of_view}
use gipcy.Driver.Table.Update.{InTable, Owned, Update}

pub record Registry : Type 0 where
  pub sem_cells : List (Ptr × Sem)
  pub mutex_cells : List (Ptr × Mutex)
  pub event_cells : List (Ptr × Event)
  pub shm_cells : List (Ptr × Shm)

pub record Realises (max : ℕ) (m : Memory) (d : Driver) (r : Registry) : Type 0 where
  pub in_sems : InTable sems max m d r.sem_cells
  pub in_mutexes : InTable mutexes max m d r.mutex_cells
  pub in_events : InTable events max m d r.event_cells
  pub in_shms : InTable shms max m d r.shm_cells

-- The world is that of a running driver which realises the registry.
pub record RealisedBy (max : ℕ) (w : World) (r : Registry) : Type 0 where
  pub memory : Memory
  pub driver : Driver
  pub runs : w ≡ world memory driver
  pub realises : Realises max memory driver r

-- A run that follows no bad pointer: it hangs, or ends in a world that realises some registry.
abbrev pub Safe : {X : Type 0} → ℕ → Run X → Type 0
Safe max (ok x w) = (r : Registry) × RealisedBy max w r
Safe max fault = ⊥
Safe max blocked = Unit {0}

pub Safe-pure :
    {X Y : Type 0} (max : ℕ) (run : Run X) (f : X → Y)
    → Safe max run
    → Safe max (and_then run (λ x. pure (f x)))
Safe-pure max (ok x w) f s = s
Safe-pure max fault f s = s
Safe-pure max blocked f s = s

pub Returns-Safe :
    {X : Type 0} (max : ℕ) (x : X) (r : Registry) (run : Run X)
    → Returns (λ y w. (y ≡ x) × RealisedBy max w r) run
    → Safe max run
Returns-Safe max x r (ok y w) h = (r, h.1)
Returns-Safe max x r fault h = h
Returns-Safe max x r blocked h = absurd h

-- A handle that a client may use: NULL, or that of an entry.
abbrev pub Usable : {A : Type 0} → Ptr → List (Ptr × A) → Type 0
Usable {A} q cs = (q ≡ null) ⊎ ((a : A) × (at q cs ≡ some a))

module _ {A B : Type 0} (S : Struct A) (T : Struct B) (apart : (a : A) → T.view (S.inject a) ≡ none)
    (max : ℕ) (m : Memory) where
  outside :
      (q : Ptr) (cs : List (Ptr × B)) (d : Driver)
      → InTable T max m d cs
      → Owned S max m q
      → has q cs ≡ false
  outside q cs d t (inl e) = has_of_none T m q cs t.holds e
  outside q cs d t (inr (a, e)) = has_of_view T m q (S.inject a) cs t.holds e (apart a)

  -- Another table keeps its place under a write for `S`, with its list and lock.
  keep :
      (q : Ptr) (c : Option Object) (cs : List (Ptr × B)) (d d' : Driver)
      → Owned S max m q
      → T.list d' ≡ T.list d
      → T.lock d' ≡ T.lock d
      → InTable T max m d cs
      → InTable T max (write m q c) d' cs
  keep q c cs d d' free l k t = record {
    listed = l ∙ t.listed;
    holds = Holds-write T m q c cs (outside q cs d t free) t.holds;
    sound = t.sound;
    unlocked = rw k t.unlocked;
    in_range = rw k t.in_range;
  }

module _ {max : ℕ} {m : Memory} {d : Driver} {r : Registry} (is : Realises max m d r) where
  -- A write for the table of sems, which has the cells `cs` afterwards.
  pub Realises-sems :
      (q : Ptr) (c : Option Object) (ps : List Ptr) (n : ℕ) (d' : Driver) (cs : List (Ptr × Sem))
      → Owned sems max m q
      → d' ≡ record d { sem_list = ps; sem_lock = n }
      → InTable sems max (write m q c) d' cs
      → Realises max (write m q c) d' (record r { sem_cells = cs })
  Realises-sems q c ps n d' cs owned same t = record {
    in_sems = t;
    in_mutexes =
        keep sems mutexes (λ a. refl) max m q c r.mutex_cells d d' owned
          (ap (λ d. d.mutex_list) same) (ap (λ d. d.mutex_lock) same) is.in_mutexes;
    in_events =
        keep sems events (λ a. refl) max m q c r.event_cells d d' owned
          (ap (λ d. d.event_list) same) (ap (λ d. d.event_lock) same) is.in_events;
    in_shms =
        keep sems shms (λ a. refl) max m q c r.shm_cells d d' owned (ap (λ d. d.shm_list) same)
          (ap (λ d. d.shm_lock) same) is.in_shms;
  }

  pub Returns-sems :
      {X : Type 0} (x : X) (cs : List (Ptr × Sem)) (run : Run X)
      → Returns (λ y w. (y ≡ x) × Update sems max m d w cs) run
      → Returns (λ y w. (y ≡ x) × RealisedBy max w (record r { sem_cells = cs })) run
  Returns-sems x cs (ok y w) (e, u) = (
    e,
    record {
      memory = write m u.place u.content;
      driver = u.after;
      runs = u.result;
      realises = Realises-sems u.place u.content u.ps u.n u.after cs u.owned u.same u.table;
    },
  )
  Returns-sems x cs fault h = h
  Returns-sems x cs blocked h = h

  -- A write for the table of mutexes, which has the cells `cs` afterwards.
  pub Realises-mutexes :
      (q : Ptr) (c : Option Object) (ps : List Ptr) (n : ℕ) (d' : Driver) (cs : List (Ptr × Mutex))
      → Owned mutexes max m q
      → d' ≡ record d { mutex_list = ps; mutex_lock = n }
      → InTable mutexes max (write m q c) d' cs
      → Realises max (write m q c) d' (record r { mutex_cells = cs })
  Realises-mutexes q c ps n d' cs owned same t = record {
    in_sems =
        keep mutexes sems (λ a. refl) max m q c r.sem_cells d d' owned (ap (λ d. d.sem_list) same)
          (ap (λ d. d.sem_lock) same) is.in_sems;
    in_mutexes = t;
    in_events =
        keep mutexes events (λ a. refl) max m q c r.event_cells d d' owned
          (ap (λ d. d.event_list) same) (ap (λ d. d.event_lock) same) is.in_events;
    in_shms =
        keep mutexes shms (λ a. refl) max m q c r.shm_cells d d' owned (ap (λ d. d.shm_list) same)
          (ap (λ d. d.shm_lock) same) is.in_shms;
  }

  pub Returns-mutexes :
      {X : Type 0} (x : X) (cs : List (Ptr × Mutex)) (run : Run X)
      → Returns (λ y w. (y ≡ x) × Update mutexes max m d w cs) run
      → Returns (λ y w. (y ≡ x) × RealisedBy max w (record r { mutex_cells = cs })) run
  Returns-mutexes x cs (ok y w) (e, u) = (
    e,
    record {
      memory = write m u.place u.content;
      driver = u.after;
      runs = u.result;
      realises = Realises-mutexes u.place u.content u.ps u.n u.after cs u.owned u.same u.table;
    },
  )
  Returns-mutexes x cs fault h = h
  Returns-mutexes x cs blocked h = h

  -- A write for the table of events, which has the cells `cs` afterwards.
  pub Realises-events :
      (q : Ptr) (c : Option Object) (ps : List Ptr) (n : ℕ) (d' : Driver) (cs : List (Ptr × Event))
      → Owned events max m q
      → d' ≡ record d { event_list = ps; event_lock = n }
      → InTable events max (write m q c) d' cs
      → Realises max (write m q c) d' (record r { event_cells = cs })
  Realises-events q c ps n d' cs owned same t = record {
    in_sems =
        keep events sems (λ a. refl) max m q c r.sem_cells d d' owned (ap (λ d. d.sem_list) same)
          (ap (λ d. d.sem_lock) same) is.in_sems;
    in_mutexes =
        keep events mutexes (λ a. refl) max m q c r.mutex_cells d d' owned
          (ap (λ d. d.mutex_list) same) (ap (λ d. d.mutex_lock) same) is.in_mutexes;
    in_events = t;
    in_shms =
        keep events shms (λ a. refl) max m q c r.shm_cells d d' owned (ap (λ d. d.shm_list) same)
          (ap (λ d. d.shm_lock) same) is.in_shms;
  }

  pub Returns-events :
      {X : Type 0} (x : X) (cs : List (Ptr × Event)) (run : Run X)
      → Returns (λ y w. (y ≡ x) × Update events max m d w cs) run
      → Returns (λ y w. (y ≡ x) × RealisedBy max w (record r { event_cells = cs })) run
  Returns-events x cs (ok y w) (e, u) = (
    e,
    record {
      memory = write m u.place u.content;
      driver = u.after;
      runs = u.result;
      realises = Realises-events u.place u.content u.ps u.n u.after cs u.owned u.same u.table;
    },
  )
  Returns-events x cs fault h = h
  Returns-events x cs blocked h = h

  -- A write for the table of shms, which has the cells `cs` afterwards.
  pub Realises-shms :
      (q : Ptr) (c : Option Object) (ps : List Ptr) (n : ℕ) (d' : Driver) (cs : List (Ptr × Shm))
      → Owned shms max m q
      → d' ≡ record d { shm_list = ps; shm_lock = n }
      → InTable shms max (write m q c) d' cs
      → Realises max (write m q c) d' (record r { shm_cells = cs })
  Realises-shms q c ps n d' cs owned same t = record {
    in_sems =
        keep shms sems (λ a. refl) max m q c r.sem_cells d d' owned (ap (λ d. d.sem_list) same)
          (ap (λ d. d.sem_lock) same) is.in_sems;
    in_mutexes =
        keep shms mutexes (λ a. refl) max m q c r.mutex_cells d d' owned
          (ap (λ d. d.mutex_list) same) (ap (λ d. d.mutex_lock) same) is.in_mutexes;
    in_events =
        keep shms events (λ a. refl) max m q c r.event_cells d d' owned
          (ap (λ d. d.event_list) same) (ap (λ d. d.event_lock) same) is.in_events;
    in_shms = t;
  }

  pub Returns-shms :
      {X : Type 0} (x : X) (cs : List (Ptr × Shm)) (run : Run X)
      → Returns (λ y w. (y ≡ x) × Update shms max m d w cs) run
      → Returns (λ y w. (y ≡ x) × RealisedBy max w (record r { shm_cells = cs })) run
  Returns-shms x cs (ok y w) (e, u) = (
    e,
    record {
      memory = write m u.place u.content;
      driver = u.after;
      runs = u.result;
      realises = Realises-shms u.place u.content u.ps u.n u.after cs u.owned u.same u.table;
    },
  )
  Returns-shms x cs fault h = h
  Returns-shms x cs blocked h = h
