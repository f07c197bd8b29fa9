-- ===== src/Linux/Session/Mutexes.antt =====
-- What capturing and releasing a mutex of the Linux driver does to its locker.
use gipcy.Base.{
  ℕ, zero, suc, ◌≡◌, refl, ◌≢◌, ◌⊎◌, inl, inr, ℤ, pos, negsuc, true, false, List, some, arith, ◌==◌,
  ==_refl, Bool-cases,
}
use gipcy.Driver.Ioctl.{Ptr, null}
use gipcy.Driver.Table.Cells.{at, replace, at-replace}
use gipcy.Linux.Ioctl.{LockParam, UnlockParam, expired}
use gipcy.Linux.Objects.{Mutex, Driver}
use gipcy.Linux.Kernel.{Kernel, Ran, done, waits, oops, ◌>>=◌, user_handle, down_interruptible}
use gipcy.Linux.Entries.{use_entry}
use gipcy.Linux.Entries.Sound.{Sound-at}
use gipcy.Linux.Entries.Steps.{check-known}
use gipcy.Linux.MutexPart.{
  mutexes, put_mutexes, same_int, lock_mutex, take_mutex, unlock_mutex, ipc_mutex_lock,
  ipc_mutex_unlock,
}
use gipcy.Linux.Rw.{Answer, answer, ioctl_mutex_lock, ioctl_mutex_unlock}
use gipcy.Linux.Module.{ipc_device_ioctl}
use gipcy.Linux.Safety.{DriverSound, OneLocker}
use gipcy.Linux.Safety.Acts.{same_int-eq, down_timeout-cases}
use gipcy.Linux.Session.{capture, release}
use gipcy.Linux.Session.Frame.{Ends}

pub same_int_refl : (n : ℤ) → same_int n n ≡ true
same_int_refl (pos n) = ==_refl n
same_int_refl (negsuc n) = ==_refl n

-- What a request on the entry at `q` makes of the driver.
abbrev pub applied : Driver → Ptr → Ran (ℤ × Mutex) → Ran (Answer × Driver)
applied d q (done x) = done (answer x.0, put_mutexes d (replace q x.1 d.mutex_list))
applied d q waits = waits
applied d q oops = oops

module _ (e : Kernel) (d : Driver) (s : DriverSound d) (q : Ptr) (a : Mutex)
    (there : at q d.mutex_list ≡ some a) where
  handle_given : (user_handle q == null) ≡ false
  handle_given =
      let is = Sound-at mutexes OneLocker q d.mutex_list s.mutex_table there in
      ground (arith, is.in_memory)

  pub use_entry-eq :
      (act : Mutex → Ran (ℤ × Mutex))
      → use_entry mutexes e (user_handle q) act d.mutex_list
        ≡ (act a >>= λ x. done (x.0, replace q x.1 d.mutex_list))
  unfolding use_entry
  use_entry-eq act =
      rw (handle_given, check-known mutexes OneLocker e q a d.mutex_list s.mutex_table there) refl

  abbrev replaced : ℤ × Mutex → Ran (ℤ × List (Ptr × Mutex))
  replaced x = done (x.0, replace q x.1 d.mutex_list)

  abbrev put_back : ℤ × List (Ptr × Mutex) → Ran (ℤ × Driver)
  put_back x = done (x.0, put_mutexes d x.1)

  abbrev told : ℤ × Driver → Ran (Answer × Driver)
  told x = done (answer x.0, x.1)

  regroup :
      (m : Ran (ℤ × Mutex))
      → (((m >>= λ x. replaced x) >>= λ x. put_back x) >>= λ x. told x) ≡ applied d q m
  regroup (done x) = refl
  regroup waits = refl
  regroup oops = refl

  pub capture-eq :
      (c timeout : ℤ)
      → ipc_device_ioctl e (capture q c timeout) d
        ≡ applied d q
            (lock_mutex e (record { handle = user_handle q; timeout = timeout; lockerid = c }) a)
  unfolding ipc_device_ioctl ioctl_mutex_lock ipc_mutex_lock
  capture-eq c timeout = rw (use_entry-eq _) (regroup _)

  pub release-eq :
      (c : ℤ)
      → ipc_device_ioctl e (release q c) d
        ≡ applied d q (unlock_mutex (record { handle = user_handle q; lockerid = c }) a)
  unfolding ipc_device_ioctl ioctl_mutex_unlock ipc_mutex_unlock
  release-eq c = rw (use_entry-eq _) (regroup _)

-- A capture that is answered 0 was by the locker of the mutex, or found it without one; any other keeps
-- the locker.
abbrev pub Outcome : ℤ → Mutex → ℤ × Mutex → Type 0
Outcome c a x =
    ((x.0 ≡ pos 0) × (x.1.lockerid ≡ c) × ((a.lockerid ≡ c) ⊎ (a.lockerid ≡ pos 0)))
    ⊎ ((x.0 ≡ expired) × (x.1.lockerid ≡ a.lockerid))

left_free : (a : Mutex) (m : ℕ) → OneLocker a → a.mutex ≡ suc m → a.lockerid ≡ pos 0
left_free a m (inl (_, nobody, _)) e = nobody
left_free a m (inr (gone, _, _)) e = absurd (omega arith)

sleep_outcome :
    (e : Kernel) (c : ℤ) (a : Mutex) (n : ℕ) (k : ℤ × ℕ → Ran (ℤ × Mutex))
    → e.signalled ≡ false
    → ((m : ℕ) → n ≡ suc m → Ends (Outcome c a) (k (pos 0, m)))
    → Ends (Outcome c a) (down_interruptible e n >>= k)
sleep_outcome e c a zero k calm h = rw calm tt
sleep_outcome e c a (suc m) k calm h = h m refl

lock_mutex-Outcome :
    (e : Kernel) (param : LockParam) (a : Mutex)
    → e.signalled ≡ false
    → OneLocker a
    → Ends (Outcome param.lockerid a) (lock_mutex e param a)
unfolding lock_mutex
lock_mutex-Outcome e param a calm good = elim (Bool-cases (same_int a.lockerid param.lockerid)) [
  | inl again ↦
      let mine = same_int-eq a.lockerid param.lockerid again in
      rw again (inl (refl, mine, inl mine))
  | inr other ↦ rw other (taking param.timeout)
]
  where
    taking : (t : ℤ) → Ends (Outcome param.lockerid a) (take_mutex e param t a)
    taking (negsuc n) =
        sleep_outcome e param.lockerid a a.mutex _ calm
          (λ m left. inl (refl, refl, inr (left_free a m good left)))
    taking (pos n) = elim (down_timeout-cases a.mutex) [
      | inl (gone, ran_out) ↦ rw ran_out (inr (refl, refl))
      | inr (m, left, taken) ↦ rw taken (inl (refl, refl, inr (left_free a m good left)))
    ]

-- A release by the locker leaves none, and a release by another changes nothing.
abbrev pub Release : ℤ → Mutex → ℤ × Mutex → Type 0
Release c a x =
    (x.0 ≡ pos 0) × (((a.lockerid ≡ c) × (x.1.lockerid ≡ pos 0)) ⊎ ((a.lockerid ≢ c) × (x.1 ≡ a)))

unlock_mutex-Release :
    (param : UnlockParam) (a : Mutex) → Ends (Release param.lockerid a) (unlock_mutex param a)
unfolding unlock_mutex
unlock_mutex-Release param a = elim (Bool-cases (same_int a.lockerid param.lockerid)) [
  | inl mine ↦ rw mine (refl, inl (same_int-eq a.lockerid param.lockerid mine, refl))
  | inr other ↦ rw other (refl, inr (apart other, refl))
]
  where
    apart : same_int a.lockerid param.lockerid ≡ false → a.lockerid ≢ param.lockerid
    apart other same = let yes_same = same_int_refl param.lockerid in cc

module _ (e : Kernel) (d : Driver) (s : DriverSound d) (q : Ptr) (a : Mutex)
    (there : at q d.mutex_list ≡ some a) where
  applied-Ends :
      (P : ℤ × Mutex → Type 0) (m : Ran (ℤ × Mutex))
      → Ends P m
      → Ends (λ x. (b : Mutex) × (at q x.1.mutex_list ≡ some b) × P (x.0.error, b)) (applied d q m)
  applied-Ends P (done (x, b)) p = (b, at-replace q a b d.mutex_list there, p)
  applied-Ends P waits p = tt
  applied-Ends P oops p = tt

  pub capture-Outcome :
      (c timeout : ℤ)
      → e.signalled ≡ false
      → Ends
          (λ (x : Answer × Driver).
            (b : Mutex) × (at q x.1.mutex_list ≡ some b) × Outcome c a (x.0.error, b))
          (ipc_device_ioctl e (capture q c timeout) d)
  capture-Outcome c timeout calm =
      let is = Sound-at mutexes OneLocker q d.mutex_list s.mutex_table there in
      let param : LockParam = record { handle = user_handle q; timeout = timeout; lockerid = c } in
      rw (capture-eq e d s q a there c timeout) (
        applied-Ends (Outcome c a) (lock_mutex e param a)
          (lock_mutex-Outcome e param a calm is.good))

  pub release-Release :
      (c : ℤ)
      → Ends
          (λ (x : Answer × Driver).
            (b : Mutex) × (at q x.1.mutex_list ≡ some b) × Release c a (x.0.error, b))
          (ipc_device_ioctl e (release q c) d)
  release-Release c =
      let param : UnlockParam = record { handle = user_handle q; lockerid = c } in
      rw (release-eq e d s q a there c)
        (applied-Ends (Release c a) (unlock_mutex param a) (unlock_mutex-Release param a))
