-- ===== src/Linux/Kernel.antt =====
-- What linux/ipcdrv uses of the kernel: counting semaphores, atomic counters, the memory that
-- `kzalloc` returns and that a pointer from a program may lead to, and the ways a request can end.
use gipcy.Base.{
  ℕ, zero, suc, ◌+◌, ◌-◌, ◌%◌, ◌^◌, ◌<◌, ◌≡◌, ℤ, pos, Bool, Option, arith, if◌then◌else◌,
}
use gipcy.Driver.Ioctl.{Ptr}
use gipcy.Linux.Ioctl.{interrupted, expired}

-- What the kernel decides during one request: the address that `kzalloc` returns, the identifier that
-- is read through a pointer to anything but an entry of the request's list (`none` if the memory
-- cannot be read), and whether a signal ends a wait.
pub record Kernel : Type 0 where
  pub allocated : Option Ptr
  pub stray : Ptr → Option ℕ
  pub signalled : Bool

-- A request is answered, waits, or touches memory that is not an entry.
pub data Ran (A : Type 0) : Type 0 where
  done : A → Ran A
  waits : Ran A
  oops : Ran A

module _ {A B : Type 0} where
  infixl 5 ◌>>=◌ ◌>>◌
  abbrev pub ◌>>=◌ : Ran A → (A → Ran B) → Ran B
  done a >>= k = k a
  waits >>= k = waits
  oops >>= k = oops

  abbrev pub ◌>>◌ : Ran A → Ran B → Ran B
  m >> n = m >>= λ _. n

-- The request touches entries only, and its answer is of this kind if it has one.
abbrev pub Answers : {A : Type 0} → (A → Type 0) → Ran A → Type 0
Answers P (done a) = P a
Answers P waits = Unit {0}
Answers P oops = ⊥

-- `atomic_inc` and `atomic_dec`.
abbrev pub atomic_inc : ℕ → ℕ
atomic_inc n = (n + 1) % 2 ^ 32

abbrev pub atomic_dec : ℕ → ℕ
atomic_dec n = (n + 2 ^ 32 - 1) % 2 ^ 32

-- The calls on a semaphore, from its count. A wait that is given the semaphore in time is the call at
-- the moment when the count is not 0.
abbrev pub down : ℕ → Ran ℕ
down zero = waits
down (suc n) = done n

abbrev pub down_timeout : ℕ → ℤ × ℕ
down_timeout zero = (expired, 0)
down_timeout (suc n) = (pos 0, n)

abbrev pub down_interruptible : Kernel → ℕ → Ran (ℤ × ℕ)
down_interruptible e zero = if e.signalled then done (interrupted, 0) else waits
down_interruptible e (suc n) = done (pos 0, n)

abbrev pub up : ℕ → ℕ
up n = (n + 1) % 2 ^ 32

-- The offset of `sem_handle`, `mutex_handle`, `event_handle` and `shm_handle` in their structures,
-- behind a `list_head`, 128 bytes and a pointer.
abbrev pub handle_offset : ℕ
handle_offset = 152

-- `&entry->sem_handle`, which is what a program gets as its handle.
abbrev pub user_handle : Ptr → Ptr
user_handle p = (p + handle_offset) % 2 ^ 64

-- `container_of(handle, struct ipcsem_t, sem_handle)`.
abbrev pub container_of : Ptr → Ptr
container_of h = (h + 2 ^ 64 - handle_offset) % 2 ^ 64

pub container_of-user_handle :
    (p : Ptr) → p + handle_offset < 2 ^ 64 → container_of (user_handle p) ≡ p
container_of-user_handle p h = omega arith
