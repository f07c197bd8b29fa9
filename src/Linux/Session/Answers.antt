-- ===== src/Linux/Session/Answers.antt =====
-- How the Linux driver answers a locker that asks for a mutex while nobody holds it, or another does.
use gipcy.Base.{
  ℕ, ◌≡◌, refl, sym, ap, ◌∙◌, ◌≢◌, inl, inr, ℤ, pos, negsuc, true, false, List, [], some,
  Bool-cases,
}
use gipcy.Driver.Ioctl.{Ptr}
use gipcy.Driver.Table.Cells.{at, replace-at}
use gipcy.Linux.Ioctl.{LockParam, expired}
use gipcy.Linux.Objects.{Mutex, Driver}
use gipcy.Linux.Kernel.{Kernel, done, waits, user_handle, atomic_inc}
use gipcy.Linux.Entries.Sound.{Sound-at}
use gipcy.Linux.MutexPart.{mutexes, put_mutexes, same_int, lock_mutex}
use gipcy.Linux.Rw.{answer}
use gipcy.Linux.Module.{ipc_device_ioctl}
use gipcy.Linux.Safety.{DriverSound, OneLocker}
use gipcy.Linux.Safety.Acts.{same_int-eq}
use gipcy.Linux.Session.{capture, Among, Held}
use gipcy.Linux.Session.Mutexes.{applied, capture-eq}
use gipcy.Linux.Session.OneHolder.{OneHolder, Held-OneHolder}

same_int-ne : (m n : ℤ) → m ≢ n → same_int m n ≡ false
same_int-ne m n ne = elim (Bool-cases (same_int m n)) [
  | inl same ↦ absurd (ne (same_int-eq m n same))
  | inr other ↦ other
]

abbrev asks : Ptr → ℤ → ℤ → LockParam
asks q c timeout = record { handle = user_handle q; timeout = timeout; lockerid = c }

-- Without a semaphore left, for a locker that does not have the mutex.
lock_mutex-sleeps :
    (e : Kernel) (q : Ptr) (b : ℤ) (n : ℕ) (a : Mutex)
    → a.mutex ≡ 0
    → a.lockerid ≢ b
    → e.signalled ≡ false
    → lock_mutex e (asks q b (negsuc n)) a ≡ waits
unfolding lock_mutex
lock_mutex-sleeps e q b n a gone ne calm = rw (same_int-ne a.lockerid b ne, gone, calm) refl

lock_mutex-expires :
    (e : Kernel) (q : Ptr) (b : ℤ) (n : ℕ) (a : Mutex)
    → a.mutex ≡ 0
    → a.lockerid ≢ b
    → lock_mutex e (asks q b (pos n)) a ≡ done (expired, a)
unfolding lock_mutex
lock_mutex-expires e q b n a gone ne = rw (same_int-ne a.lockerid b ne, gone) refl

lock_mutex-signalled :
    (e : Kernel) (q : Ptr) (b : ℤ) (n : ℕ) (a : Mutex)
    → a.mutex ≡ 0
    → a.lockerid ≢ b
    → e.signalled ≡ true
    → lock_mutex e (asks q b (negsuc n)) a
      ≡ done (pos 0, record a { mutex = 0; lock_count = atomic_inc a.lock_count; lockerid = b })
unfolding lock_mutex
lock_mutex-signalled e q b n a gone ne signal = rw (same_int-ne a.lockerid b ne, gone, signal) refl

lock_mutex-free :
    (e : Kernel) (q : Ptr) (b t : ℤ) (a : Mutex)
    → a.mutex ≡ 1
    → a.lockerid ≢ b
    → lock_mutex e (asks q b t) a
      ≡ done (pos 0, record a { mutex = 0; lock_count = atomic_inc a.lock_count; lockerid = b })
unfolding lock_mutex
lock_mutex-free e q b (pos n) a one ne = rw (same_int-ne a.lockerid b ne, one) refl
lock_mutex-free e q b (negsuc n) a one ne = rw (same_int-ne a.lockerid b ne, one) refl

module _ (q : Ptr) (start : Driver) (s : DriverSound start) (a : Mutex)
    (there : at q start.mutex_list ≡ some a) (free : a.lockerid ≡ pos 0) where
  -- A mutex that one holds has no semaphore left, and another locker than its own.
  taken :
      {d : Driver} {hs : List ℤ} (b c : ℤ) (h : OneHolder q d hs)
      → Among c hs
      → b ≢ c
      → (h.entry.mutex ≡ 0) × (h.entry.lockerid ≢ b)
  taken {d} b c h holds ne =
      let is_c = h.locked_by.agree c holds in
      let is = Sound-at mutexes OneLocker q d.mutex_list h.sound.mutex_table h.there in
      (
        elim is.good [
          | inl (_, nobody, _) ↦ absurd (h.locked_by.named c holds (sym is_c ∙ nobody))
          | inr (gone, _, _) ↦ gone
        ],
        λ is_b. ne (sym is_b ∙ is_c),
      )

  -- In a session that starts with a mutex at `q` without a locker in a sound driver: while a locker
  -- holds it, a request of another locker to capture it waits if its timeout is negative and no signal
  -- comes, and is answered -ETIME and changes nothing if it is 0 or more.
  pub Held-excluded :
      {d : Driver} {hs : List ℤ} (e : Kernel) (b c : ℤ) (n : ℕ)
      → Held q start d hs
      → Among c hs
      → b ≢ c
      → e.signalled ≡ false
      → (ipc_device_ioctl e (capture q b (negsuc n)) d ≡ waits)
        × (ipc_device_ioctl e (capture q b (pos n)) d ≡ done (answer expired, d))
  Held-excluded {d} e b c n held holds ne calm =
      let h = Held-OneHolder q start s a there free held in
      let (gone, other) = taken b c h holds ne in
      (
        capture-eq e d h.sound q h.entry h.there b (negsuc n)
            ∙ ap (applied d q) (lock_mutex-sleeps e q b n h.entry gone other calm),
        capture-eq e d h.sound q h.entry h.there b (pos n)
            ∙ (ap (applied d q) (lock_mutex-expires e q b n h.entry gone other)
                ∙ ap (λ cs. done (answer expired, put_mutexes d cs))
                    (replace-at q h.entry d.mutex_list h.there)),
      )

  -- In a session that starts with a mutex at `q` without a locker in a sound driver: while nobody holds
  -- it, the next request to capture it, of any locker but 0 and with any timeout, is answered 0.
  pub Held-granted :
      {d : Driver} (e : Kernel) (b t : ℤ)
      → Held q start d []
      → b ≢ pos 0
      → (d' : Driver) × (ipc_device_ioctl e (capture q b t) d ≡ done (answer (pos 0), d'))
  Held-granted {d} e b t held ne =
      let h = Held-OneHolder q start s a there free held in
      let is = Sound-at mutexes OneLocker q d.mutex_list h.sound.mutex_table h.there in
      let nobody : h.entry.lockerid ≡ pos 0 = elim h.locked_by.owner [
        | inl nobody ↦ nobody
        | inr among ↦ absurd among
      ] in
      let one : h.entry.mutex ≡ 1 = elim is.good [
        | inl (one, _, _) ↦ one
        | inr (_, someone, _) ↦ absurd (someone nobody)
      ] in
      (
        _,
        capture-eq e d h.sound q h.entry h.there b t
            ∙ ap (applied d q)
                (lock_mutex-free e q b t h.entry one (λ is_b. ne (sym is_b ∙ nobody))),
      )

  -- In a session that starts with a mutex at `q` without a locker in a sound driver: while a locker
  -- holds it, a request of another locker to capture it without a time limit is answered 0 as soon as a
  -- signal ends its wait, so that both hold it.
  pub Held-signalled :
      {d : Driver} {hs : List ℤ} (e : Kernel) (b c : ℤ) (n : ℕ)
      → Held q start d hs
      → Among c hs
      → b ≢ c
      → e.signalled ≡ true
      → (d' : Driver) × (ipc_device_ioctl e (capture q b (negsuc n)) d ≡ done (answer (pos 0), d'))
  Held-signalled {d} e b c n held holds ne signal =
      let h = Held-OneHolder q start s a there free held in
      let (gone, other) = taken b c h holds ne in
      (
        _,
        capture-eq e d h.sound q h.entry h.there b (negsuc n)
            ∙ ap (applied d q) (lock_mutex-signalled e q b n h.entry gone other signal),
      )
