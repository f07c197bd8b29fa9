-- ===== src/Driver/Session/Answers.antt =====
-- How `io_devctl` answers the requests to capture and to release an entry of the mutex table.
use gipcy.Base.{
  ℕ, ◌<◌, ◌≡◌, refl, ◌∙◌, ◌⊎◌, inl, inr, ℤ, pos, negsuc, neg, Bool-cases, true, false, none, some,
  arith, ◌==◌,
}
use gipcy.Driver.Ioctl.{Ptr, lock_param, unlock_param}
use gipcy.Driver.Objects.{Mutex, a_mutex, Driver}
use gipcy.Driver.Machine.{Env, Memory, World, world, ok, blocked, write, and_then, pure}
use gipcy.Driver.Table.Cells.{at}
use gipcy.Driver.Registry.{Registry, Realises}
use gipcy.Driver.MutexPart.{ipc_mutex_lock, ipc_mutex_unlock}
use gipcy.Driver.MutexPart.Lock.{
  locked, signalled, unlocked, ipc_mutex_lock-free, ipc_mutex_lock-blocked,
  ipc_mutex_lock-interrupted, ipc_mutex_lock-timeout, ipc_mutex_unlock-ok,
}
use gipcy.Driver.Devctl.{error, reply, answered, io_devctl}
use gipcy.Driver.Session.{capture, release}

capture_sent :
    (e : Env) (q : Ptr) (t : ℤ) (w : World)
    → capture e q t w
      ≡ and_then (ipc_mutex_lock e (some (lock_param q t)) w) (λ x. pure (answered x))
unfolding io_devctl
capture_sent e q t w = refl

release_sent :
    (e : Env) (q : Ptr) (w : World)
    → release e q w
      ≡ and_then (ipc_mutex_unlock e (some (unlock_param q)) w) (λ x. pure (answered x))
unfolding io_devctl
release_sent e q w = refl

module _ (e : Env) (m : Memory) (d : Driver) (r : Registry) (is : Realises e.sem_value_max m d r)
    (p : Ptr) (a : Mutex) (known : at p r.mutex_cells ≡ some a) where
  -- The answers to a request to capture an entry.
  unfoldable pub Captures : ℤ → Type 0
  Captures t =
      (capture e p t (world m d) ≡ blocked)
      ⊎ ((a.mutex ≡ 0) × (capture e p t (world m d) ≡ ok (error (neg 1)) (world m d)))
      ⊎ ((0 < a.mutex)
          × (capture e p t (world m d)
              ≡ ok (reply none) (world (write m p (some (a_mutex (locked a)))) d)))
      ⊎ ((e.interrupted ≡ true)
          × (a.mutex ≡ 0)
          × (capture e p t (world m d)
              ≡ ok (reply none) (world (write m p (some (a_mutex (signalled a)))) d)))

  pub capture-free :
      (t : ℤ)
      → 0 < a.mutex
      → capture e p t (world m d)
        ≡ ok (reply none) (world (write m p (some (a_mutex (locked a)))) d)
  unfolding answered
  capture-free t free =
      capture_sent e p t (world m d) ∙ rw (ipc_mutex_lock-free e m d r is p a known t free)

  pub capture-timeout :
      (n : ℕ) → a.mutex ≡ 0 → capture e p (pos n) (world m d) ≡ ok (error (neg 1)) (world m d)
  unfolding answered
  capture-timeout n z =
      capture_sent e p (pos n) (world m d) ∙ rw (ipc_mutex_lock-timeout e m d r is p a known n z)

  pub capture-blocked :
      (n : ℕ) → a.mutex ≡ 0 → e.interrupted ≡ false → capture e p (negsuc n) (world m d) ≡ blocked
  capture-blocked n z quiet =
      capture_sent e p (negsuc n) (world m d)
      ∙ rw (ipc_mutex_lock-blocked e m d r is p a known n z quiet)

  pub capture-interrupted :
      (n : ℕ)
      → a.mutex ≡ 0
      → e.interrupted ≡ true
      → capture e p (negsuc n) (world m d)
        ≡ ok (reply none) (world (write m p (some (a_mutex (signalled a)))) d)
  unfolding answered
  capture-interrupted n z signal =
      capture_sent e p (negsuc n) (world m d)
      ∙ rw (ipc_mutex_lock-interrupted e m d r is p a known n z signal)

  pub capture-cases : (t : ℤ) → Captures t
  unfolding Captures
  capture-cases t = elim (Bool-cases (a.mutex == 0)) [
    | inl z ↦ go t (ground arith)
    | inr f ↦ inr (inr (inl (ground arith, capture-free t (ground arith))))
  ]
    where
      go : (t : ℤ) → a.mutex ≡ 0 → Captures t
      go (pos n) z = inr (inl (z, capture-timeout n z))
      go (negsuc n) z = elim (Bool-cases e.interrupted) [
        | inl signal ↦ inr (inr (inr (signal, z, capture-interrupted n z signal)))
        | inr quiet ↦ inl (capture-blocked n z quiet)
      ]

  pub release-ok :
      release e p (world m d)
      ≡ ok (reply none) (world (write m p (some (a_mutex (unlocked e a)))) d)
  unfolding answered
  release-ok = release_sent e p (world m d) ∙ rw (ipc_mutex_unlock-ok e m d r is p a known)
