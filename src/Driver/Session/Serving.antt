-- ===== src/Driver/Session/Serving.antt =====
-- A sequence of requests to a new instance of the driver.
use mathlib.Core.Path.{subst}
use gipcy.Base.{ℕ, ◌<◌, ◌≡◌, refl, ◌≢◌, List, [], ◌∷◌, none, some}
use gipcy.Driver.Ioctl.{Request, Name, null}
use gipcy.Driver.Objects.{Driver}
use gipcy.Driver.Machine.{
  Env, Memory, World, world, Run, ok, fault, blocked, Cmd, pure, ◌>>=◌, and_then,
}
use gipcy.Driver.Registry.{Registry, Realises, RealisedBy, Safe, Safe-pure}
use gipcy.Driver.Instance.{create_instance}
use gipcy.Driver.Instance.Lifecycle.{empty, create_instance-Realises}
use gipcy.Driver.Devctl.{Response, io_devctl}
use gipcy.Driver.Devctl.Safety.{Valid, io_devctl-Safe}

-- What changes from call to call, under one limit for semaphores.
abbrev pub limited : ℕ → Env → Env
limited max e = record e { sem_value_max = max }

abbrev pub Turns : Type 0
Turns = List (Env × Request)

-- The requests, one after another; the loop of the dispatch library has one thread.
unfoldable pub serve : ℕ → Turns → Cmd (List Response)
serve max [] = pure []
serve max ((e, request) ∷ turns) =
    io_devctl (limited max e) none request >>= λ x. serve max turns >>= λ xs. pure (x ∷ xs)

-- Where the run ends, its world is of this kind.
abbrev pub Then : {A : Type 0} → (World → Type 0) → Run A → Type 0
Then P (ok a w) = P w
Then P fault = Unit {0}
Then P blocked = Unit {0}

-- Each request is valid when its turn comes, for whatever registry the world realises.
unfoldable pub Courteous : ℕ → Turns → World → Type 0
Courteous max [] w = Unit {0}
Courteous max ((e, request) ∷ turns) w =
    ((m : Memory) (d : Driver) (r : Registry)
      → w ≡ world m d
      → Realises max m d r
      → Valid (limited max e) m r request)
    × Then (Courteous max turns) (io_devctl (limited max e) none request w)

after_turn :
    (max : ℕ) (turns : Turns) (run : Run Response)
    → ((w : World) (r : Registry)
        → RealisedBy max w r
        → Courteous max turns w
        → Safe max (serve max turns w))
    → Safe max run
    → Then (Courteous max turns) run
    → Safe max (and_then run (λ x. serve max turns >>= λ xs. pure (x ∷ xs)))
after_turn max turns (ok x w) ih (r, realised) later =
    Safe-pure max (serve max turns w) (λ xs. x ∷ xs) (ih w r realised later)
after_turn max turns fault ih safe later = safe
after_turn max turns blocked ih safe later = tt

serve-Realises :
    (max : ℕ) (turns : Turns) (w : World) (r : Registry)
    → RealisedBy max w r
    → Courteous max turns w
    → Safe max (serve max turns w)
unfolding serve Courteous
serve-Realises max [] w r realised courteous = (r, realised)
serve-Realises max ((e, request) ∷ turns) w r realised (valid, later) =
    let answers : Safe max (io_devctl (limited max e) none request w) = rw realised.runs (
      io_devctl-Safe (limited max e) realised.memory realised.driver r realised.realises request
        (valid realised.memory realised.driver r realised.runs realised.realises)) in
    after_turn max turns (io_devctl (limited max e) none request w) (serve-Realises max turns)
      answers later

-- If create_instance gives a driver, then no sequence of requests, each valid when its turn comes, makes
-- the driver follow a bad pointer: it serves them all and ends in a world that realises some registry,
-- unless it waits for ever in one of them.
pub serve-create_instance :
    (max : ℕ) (e : Env) (printed : Name) (index : ℕ) (m : Memory) (d : Driver) (turns : Turns)
    → e.fresh ≢ null
    → 0 < max
    → create_instance (limited max e) printed index ≡ some d
    → Courteous max turns (world m d)
    → Safe max (serve max turns (world m d))
serve-create_instance max e printed index m d turns ne positive created courteous =
    let (d', created', is) = create_instance-Realises (limited max e) printed index m ne positive in
    let same : d' ≡ d = cc in
    serve-Realises max turns (world m d) empty
      (record {
        memory = m;
        driver = d;
        runs = refl;
        realises = subst (λ x. Realises max m x empty) same is;
      })
      courteous
