-- ===== src/Driver/Machine.antt =====
-- What the driver's functions run on: the allocated objects, the driver structure behind the global
-- `entry`, and the ways in which a call ends. `fault` is undefined behaviour (a null, freed or
-- mistyped pointer is followed); `blocked` is a wait on a semaphore whose count is 0 inside the
-- driver, which has one thread, so that nobody is left to post, while no signal comes.
use gipcy.Base.{ℕ, ◌+◌, ◌==◌, ltb, if◌then◌else◌, Bool, true, false, Option, none, some}
use gipcy.Driver.Ioctl.{Ptr}
use gipcy.Driver.Objects.{Object, Driver}

pub record Timespec : Type 0 where
  pub sec : ℕ
  pub nsec : ℕ

-- What the C library and the kernel decide during one call: the address that `malloc` returns (0 if
-- it fails), the clock, SEM_VALUE_MAX, the `errno` of a timed wait that does not get the semaphore, by
-- the deadline that it was given, and whether a signal interrupts a `sem_wait` that waits (EINTR); the
-- number of bits of a `time_t`, and the number that an int product leaves in a `uint64_t` if it is too
-- large for an int, which C does not define.
pub record Env : Type 0 where
  pub fresh : Ptr
  pub now : Timespec
  pub sem_value_max : ℕ
  pub wait_errno : Timespec → ℕ
  pub interrupted : Bool
  pub time_bits : ℕ
  pub overflowed : ℕ → ℕ

abbrev pub Memory : Type 0
Memory = Ptr → Option Object

unfoldable pub write : Memory → Ptr → Option Object → Memory
write m p c a = if a == p then c else m a

pub record World : Type 0 where
  pub mem : Memory
  pub drv : Option Driver

-- The world of a driver that runs.
abbrev pub world : Memory → Driver → World
world m d = record { mem = m; drv = some d }

pub data Run (A : Type 0) : Type 0 where
  ok : A → World → Run A
  fault : Run A
  blocked : Run A

abbrev pub Cmd : Type 0 → Type 0
Cmd A = World → Run A

abbrev pub pure : {A : Type 0} → A → Cmd A
pure = ok

module _ {A B : Type 0} where
  abbrev pub and_then : Run A → (A → Cmd B) → Run B
  and_then (ok a w) k = k a w
  and_then fault k = fault
  and_then blocked k = blocked

  infixl 5 ◌>>=◌ ◌>>◌
  abbrev pub ◌>>=◌ : Cmd A → (A → Cmd B) → Cmd B
  m >>= k = λ w. and_then (m w) k

  abbrev pub ◌>>◌ : Cmd A → Cmd B → Cmd B
  m >> n = m >>= λ _. n

-- The run ends, with a result and a world of this kind.
abbrev pub Returns : {A : Type 0} → (A → World → Type 0) → Run A → Type 0
Returns P (ok a w) = P a w
Returns P fault = ⊥
Returns P blocked = ⊥

pub Returns-and_then :
    {A B : Type 0} (P : A → World → Type 0) (Q : B → World → Type 0) (r : Run A) (k : A → Cmd B)
    → Returns P r
    → ((a : A) (w : World) → P a w → Returns Q (k a w))
    → Returns Q (and_then r k)
Returns-and_then P Q (ok a w) k h next = next a w h
Returns-and_then P Q fault k h next = absurd h
Returns-and_then P Q blocked k h next = absurd h

abbrev pub fails : {A : Type 0} → Cmd A
fails w = fault

abbrev pub hangs : {A : Type 0} → Cmd A
hangs w = blocked

-- `*drv`, and a write of it.
unfoldable pub get_driver : Cmd Driver
get_driver w = elim w.drv [ none ↦ fault | some d ↦ ok d w ]

unfoldable pub put_driver : Driver → Cmd (Unit {0})
put_driver d w = ok tt (record w { drv = some d })

-- A raw write: `some o` fills the address, `none` frees it.
unfoldable pub store : Ptr → Option Object → Cmd (Unit {0})
store p c w = ok tt (record w { mem = write w.mem p c })

-- `drv == NULL`.
unfoldable pub no_driver : Cmd Bool
no_driver w = elim w.drv [ none ↦ ok true w | some d ↦ ok false w ]

-- The count after `sem_init(s, 0, value)`: a value above the limit is refused, and the semaphore
-- keeps the zeros of `memset`.
unfoldable pub sem_init : Env → ℕ → ℕ
sem_init e value = if ltb e.sem_value_max value then 0 else value

-- The count after `sem_post`, which fails at the limit.
unfoldable pub sem_post : Env → ℕ → ℕ
sem_post e n = if ltb n e.sem_value_max then n + 1 else n
