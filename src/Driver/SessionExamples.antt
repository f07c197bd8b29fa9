-- ===== src/Driver/SessionExamples.antt =====
-- The theorems on sessions at the driver of Sample: clients 7 and 9 and the mutex at 48.
use gipcy.Driver.Ioctl.{Ptr, CreateParam, close_param, sem_open, shm_close}
use gipcy.Driver.Struct.{sems}
use gipcy.Driver.Table.Cells.{addresses}
use gipcy.Driver.Table.Spec.{HasRoom}
use gipcy.Driver.Registry.{Registry, Realises, Safe}
use gipcy.Driver.Instance.{create_instance}
use gipcy.Driver.Devctl.Safety.{Openable}
use gipcy.Driver.Session.Serving.{limited, Turns, serve, Then, Courteous, serve-create_instance}
use gipcy.Base.{
  arith, Bool, true, false, ap, sym, ◌∙◌, inl, ◌≡◌, ◌≤◌, refl, pos, neg, negsuc, [], ◌∷◌, List, ℕ,
  none, some, length,
}
use gipcy.Driver.Objects.{Sem, a_mutex, Driver}
use gipcy.Driver.Machine.{
  Memory, sem_init, World, Run, fault, Timespec, Returns, ◌>>=◌, pure, world, write, ok, blocked,
}
use gipcy.Driver.MutexPart.{ipc_mutex_lock, ipc_mutex_unlock}
use gipcy.Driver.MutexPart.Lock.{locked, unlocked}
use gipcy.Driver.Devctl.{Response, error, reply, io_devctl}
use gipcy.Driver.Session.{at_moment, capture, release, Held, nobody, captured, released}
use gipcy.Driver.Session.Exclusion.{Held-exclusive, capture-granted, capture-excluded}
use gipcy.Driver.Sample.{a_free_mutex, env, memory, driver, registry, registry-Realises}

-- A second later.
abbrev pub later : Timespec
later = record { sec = 101; nsec = 0 }

abbrev pub taken_world : World
taken_world = world (write memory 48 (some (a_mutex (locked a_free_mutex)))) driver

abbrev given_world : World
given_world =
    world
      (write (write memory 48 (some (a_mutex (locked a_free_mutex)))) 48
        (some (a_mutex (unlocked env (locked a_free_mutex)))))
      driver

abbrev pub Session : List ℕ → World → Type 0
Session hs w = Held env 48 registry.mutex_cells (world memory driver) w hs

pub taken : Session (7 ∷ []) taken_world
unfolding io_devctl write ipc_mutex_lock
taken = captured later false 7 (negsuc 0) nobody refl

given : Session [] given_world
unfolding io_devctl write ipc_mutex_unlock
given = released later false 7 [] [] taken refl

Held-exclusive_example : length {A = ℕ} (7 ∷ []) ≤ 1
Held-exclusive_example =
    Held-exclusive env memory driver registry registry-Realises 48 a_free_mutex refl refl refl taken

capture-granted_example :
    Returns (λ x v. x ≡ reply none) (capture (at_moment env later true) 48 (pos 20) given_world)
capture-granted_example =
    capture-granted env memory driver registry registry-Realises 48 a_free_mutex refl refl later
      true (pos 20) given

capture-excluded_example :
    (capture (at_moment env later false) 48 (negsuc 19) taken_world ≡ blocked)
    × Returns
        (λ x v. x ≡ reply none)
        (capture (at_moment env later true) 48 (negsuc 19) taken_world)
    × ((signal : Bool)
        → capture (at_moment env later signal) 48 (pos 19) taken_world
          ≡ ok (error (neg 1)) taken_world)
capture-excluded_example =
    capture-excluded env memory driver registry registry-Realises 48 a_free_mutex refl refl later 19
      refl taken

-- A release of a mutex that nobody holds lets two clients in.
two_inside :
    Returns {A = Response × Response}
      (λ x w. x ≡ (reply none, reply none))
      ((release env 48 >>= λ _.
          capture env 48 (neg 1) >>= λ x. capture env 48 (neg 1) >>= λ y. pure (x, y))
        (world memory driver))
unfolding io_devctl write ipc_mutex_lock ipc_mutex_unlock
two_inside = refl

abbrev a_param : CreateParam
a_param = record { name = 97 ∷ []; value = pos 1; flag = pos 0; handle = 0 }

-- A new driver and two requests: to open a semaphore, and to close nothing.
abbrev at_start : Memory
at_start p = none

abbrev instance : Driver
instance = record driver { sem_list = []; mutex_list = []; event_list = []; shm_list = [] }

created : create_instance (limited 32767 env) (105 ∷ []) 0 ≡ some instance
unfolding create_instance sem_init
created = refl

abbrev turns : Turns
turns = (env, sem_open (a_param)) ∷ (env, shm_close (close_param 0)) ∷ []

no_cells : (cs : List (Ptr × Sem)) → [] ≡ addresses cs → cs ≡ []
no_cells [] e = refl
no_cells (c ∷ cs) e = cc

room : (cs : List (Ptr × Sem)) → cs ≡ [] → HasRoom sems (97 ∷ []) cs
unfolding HasRoom
room [] e = tt
room (c ∷ cs) e = cc

sems_of : World → List Ptr
sems_of w = elim w.drv [ none ↦ [] | some d ↦ d.sem_list ]

openable :
    (m : Memory) (d : Driver) (r : Registry)
    → world at_start instance ≡ world m d
    → Realises 32767 m d r
    → Openable sems (limited 32767 env) m r.sem_cells a_param
unfolding sems_of
openable m d r same is = record {
  fits = omega arith;
  room = room r.sem_cells (no_cells r.sem_cells (ap sems_of same ∙ is.in_sems.listed));
  memory = λ z. ground arith;
  free = ap (λ w. w.mem 96) (sym same);
}

Then-always : {A : Type 0} (P : World → Type 0) → ((w : World) → P w) → (run : Run A) → Then P run
Then-always P all (ok a w) = all w
Then-always P all fault = tt
Then-always P all blocked = tt

closing : (w : World) → Courteous 32767 ((env, shm_close (close_param 0)) ∷ []) w
unfolding Courteous
closing w = (λ m d r same is. inl refl, Then-always _ (λ v. tt) _)

courteous : Courteous 32767 turns (world at_start instance)
unfolding Courteous
courteous = (openable, Then-always _ closing _)

serve-create_instance_example : Safe 32767 (serve 32767 turns (world at_start instance))
serve-create_instance_example =
    serve-create_instance 32767 env (105 ∷ []) 0 at_start instance turns (λ z. ground arith)
      (omega arith) created courteous
