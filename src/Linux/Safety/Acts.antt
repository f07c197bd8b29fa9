-- ===== src/Linux/Safety/Acts.antt =====
-- What a request on a handle makes of its entry: the name, the owners and the identifier stay, and the
-- entry's own fields fit together as before.
use gipcy.Base.{
  ℕ, zero, suc, ◌≡◌, refl, sym, ap, ◌∙◌, ◌≢◌, ◌⊎◌, inl, inr, ℤ, pos, negsuc, true, false, arith,
  ◌==◌, Bool-cases, ==_iff,
}
use gipcy.Driver.Ioctl.{Ptr}
use gipcy.Linux.Ioctl.{LockParam, UnlockParam, expired, timed_out}
use gipcy.Linux.Objects.{Sem, Mutex, Event}
use gipcy.Linux.Kernel.{
  Kernel, Ran, Answers, down, down_timeout, down_interruptible, atomic_inc, ◌>>=◌,
}
use gipcy.Linux.Entries.{Kind}
use gipcy.Linux.Entries.Sound.{IsEntry}
use gipcy.Linux.SemPart.{sems, lock_sem, unlock_sem}
use gipcy.Linux.MutexPart.{mutexes, same_int, lock_mutex, take_mutex, unlock_mutex, give_mutex}
use gipcy.Linux.EventPart.{events, lock_event, unlock_event, reset_event}
use gipcy.Linux.Safety.{AnyCount, OneLocker, OneWaiter}

-- The entry after a request, as its list needs it.
abbrev pub Kept : {A : Type 0} → Kind A → (A → Type 0) → Ptr → A → ℤ × A → Type 0
Kept K Good p a x =
    (K.name x.1 ≡ K.name a) × (K.owner_count x.1 ≡ K.owner_count a) × IsEntry K Good p x.1

Kept-sem :
    (p : Ptr) (a b : Sem)
    → IsEntry sems AnyCount p a
    → a.name ≡ b.name
    → a.owner_count ≡ b.owner_count
    → a.id ≡ b.id
    → (x : ℤ) → Kept sems AnyCount p a (x, b)
Kept-sem p a b is name owners id x = (
  sym name,
  sym owners,
  record {
    located = is.located;
    in_memory = is.in_memory;
    known_id = sym id ∙ is.known_id;
    owned = rw (← owners) is.owned;
    in_range = rw (← owners) is.in_range;
    good = tt;
  },
)

-- A semaphore that is there is taken, and another one is waited for.
take_or_wait :
    {A : Type 0} (P : A → Type 0) (n : ℕ) (k : ℕ → Ran A)
    → ((m : ℕ) → n ≡ suc m → Answers P (k m))
    → Answers P (down n >>= k)
take_or_wait P zero k h = tt
take_or_wait P (suc m) k h = h m refl

pub down_timeout-cases :
    (n : ℕ)
    → ((n ≡ 0) × (down_timeout n ≡ (expired, 0)))
      ⊎ ((m : ℕ) × (n ≡ suc m) × (down_timeout n ≡ (pos 0, m)))
down_timeout-cases zero = inl (refl, refl)
down_timeout-cases (suc m) = inr (m, refl, refl)

pub lock_sem-Kept :
    (t : ℤ) (p : Ptr) (a : Sem)
    → IsEntry sems AnyCount p a
    → Answers (Kept sems AnyCount p a) (lock_sem t a)
unfolding lock_sem
lock_sem-Kept (negsuc n) p a is =
    take_or_wait (Kept sems AnyCount p a) a.sem _ (λ m e. Kept-sem p a _ is refl refl refl (pos 0))
lock_sem-Kept (pos n) p a is = elim (down_timeout-cases a.sem) [
  | inl (_, e) ↦ rw e (Kept-sem p a _ is refl refl refl expired)
  | inr (m, _, e) ↦ rw e (Kept-sem p a _ is refl refl refl (pos 0))
]

pub unlock_sem-Kept :
    (p : Ptr) (a : Sem)
    → IsEntry sems AnyCount p a
    → Answers (Kept sems AnyCount p a) (unlock_sem a)
unfolding unlock_sem
unlock_sem-Kept p a is = Kept-sem p a _ is refl refl refl (pos 0)

Kept-event :
    (p : Ptr) (a b : Event)
    → IsEntry events OneWaiter p a
    → a.name ≡ b.name
    → a.owner_count ≡ b.owner_count
    → a.id ≡ b.id
    → OneWaiter b
    → (x : ℤ) → Kept events OneWaiter p a (x, b)
Kept-event p a b is name owners id good x = (
  sym name,
  sym owners,
  record {
    located = is.located;
    in_memory = is.in_memory;
    known_id = sym id ∙ is.known_id;
    owned = rw (← owners) is.owned;
    in_range = rw (← owners) is.in_range;
    good = good;
  },
)

pub lock_event-Kept :
    (t : ℤ) (p : Ptr) (a : Event)
    → IsEntry events OneWaiter p a
    → Answers (Kept events OneWaiter p a) (lock_event t a)
unfolding lock_event
lock_event-Kept (negsuc n) p a is =
    take_or_wait (Kept events OneWaiter p a) a.event _
      (λ m e. Kept-event p a _ is refl refl refl (omega (arith, is.good, e)) (pos 0))
lock_event-Kept (pos n) p a is = elim (down_timeout-cases a.event) [
  | inl (none_left, e) ↦
      rw e (Kept-event p a _ is refl refl refl (omega (arith, is.good, none_left)) timed_out)
  | inr (m, left, e) ↦
      rw e (Kept-event p a _ is refl refl refl (omega (arith, is.good, left)) (pos 0))
]

pub unlock_event-Kept :
    (p : Ptr) (a : Event)
    → IsEntry events OneWaiter p a
    → Answers (Kept events OneWaiter p a) (unlock_event a)
unfolding unlock_event
unlock_event-Kept p a is = elim (Bool-cases (a.lock_count == 0)) [
  | inl none_waits ↦ rw none_waits (Kept-event p a a is refl refl refl is.good (pos 0))
  | inr one ↦ rw one (Kept-event p a _ is refl refl refl (ground (arith, is.good)) (pos 0))
]

-- `ipc_event_reset` sets the event: with any argument it does what `ipc_event_unlock` does.
pub reset_event-eq : (a : Event) → reset_event a ≡ unlock_event a
unfolding reset_event unlock_event
reset_event-eq a = refl

Kept-mutex :
    (p : Ptr) (a b : Mutex)
    → IsEntry mutexes OneLocker p a
    → a.name ≡ b.name
    → a.owner_count ≡ b.owner_count
    → a.id ≡ b.id
    → OneLocker b
    → (x : ℤ) → Kept mutexes OneLocker p a (x, b)
Kept-mutex p a b is name owners id good x = (
  sym name,
  sym owners,
  record {
    located = is.located;
    in_memory = is.in_memory;
    known_id = sym id ∙ is.known_id;
    owned = rw (← owners) is.owned;
    in_range = rw (← owners) is.in_range;
    good = good;
  },
)

pub same_int-eq : (m n : ℤ) → same_int m n ≡ true → m ≡ n
same_int-eq (pos m) (pos n) h = ap pos ((==_iff m n).0 h)
same_int-eq (negsuc m) (negsuc n) h = ap negsuc ((==_iff m n).0 h)
same_int-eq (pos m) (negsuc n) h = cc
same_int-eq (negsuc m) (pos n) h = cc

-- Without a signal.
take_or_sleep :
    {A : Type 0} (P : A → Type 0) (e : Kernel) (n : ℕ) (k : ℤ × ℕ → Ran A)
    → e.signalled ≡ false
    → ((m : ℕ) → n ≡ suc m → Answers P (k (pos 0, m)))
    → Answers P (down_interruptible e n >>= k)
take_or_sleep P e zero k calm h = rw calm tt
take_or_sleep P e (suc m) k calm h = h m refl

taken_good :
    (a : Mutex) (m : ℕ) → OneLocker a → a.mutex ≡ suc m → (m ≡ 0) × (atomic_inc a.lock_count ≡ 1)
taken_good a m (inl (free, _, none)) e = (omega arith, omega arith)
taken_good a m (inr (gone, _, _)) e = absurd (omega arith)

pub lock_mutex-Kept :
    (e : Kernel) (param : LockParam) (p : Ptr) (a : Mutex)
    → param.lockerid ≢ pos 0
    → e.signalled ≡ false
    → IsEntry mutexes OneLocker p a
    → Answers (Kept mutexes OneLocker p a) (lock_mutex e param a)
unfolding lock_mutex
lock_mutex-Kept e param p a ne calm is = elim (Bool-cases (same_int a.lockerid param.lockerid)) [
  | inl again ↦ rw again (Kept-mutex p a a is refl refl refl is.good (pos 0))
  | inr other ↦ rw other (taking param.timeout)
]
  where
    taking : (t : ℤ) → Answers (Kept mutexes OneLocker p a) (take_mutex e param t a)
    taking (negsuc n) = take_or_sleep (Kept mutexes OneLocker p a) e a.mutex _ calm (λ m left.
        let (all, one) = taken_good a m is.good left in
        Kept-mutex p a _ is refl refl refl (inr (all, ne, one)) (pos 0))
    taking (pos n) = elim (down_timeout-cases a.mutex) [
      | inl (gone, ran_out) ↦
          rw ran_out (Kept-mutex p a _ is refl refl refl (still_taken gone) expired)
      | inr (m, left, taken) ↦
          let (all, one) = taken_good a m is.good left in
          rw taken (Kept-mutex p a _ is refl refl refl (inr (all, ne, one)) (pos 0))
    ]
      where
        still_taken : a.mutex ≡ 0 → OneLocker (record a { mutex = 0 })
        still_taken gone = elim is.good [
          | inl (free, _, _) ↦ absurd (omega arith)
          | inr (_, who, one) ↦ inr (refl, who, one)
        ]

pub unlock_mutex-Kept :
    (param : UnlockParam) (p : Ptr) (a : Mutex)
    → param.lockerid ≢ pos 0
    → IsEntry mutexes OneLocker p a
    → Answers (Kept mutexes OneLocker p a) (unlock_mutex param a)
unfolding unlock_mutex
unlock_mutex-Kept param p a ne is = elim (Bool-cases (same_int a.lockerid param.lockerid)) [
  | inl holder ↦ rw holder (
      Kept-mutex p a _ is refl refl refl
        (given_back (same_int-eq a.lockerid param.lockerid holder) is.good) (pos 0))
  | inr other ↦ rw other (Kept-mutex p a a is refl refl refl is.good (pos 0))
]
  where
    given_back : a.lockerid ≡ param.lockerid → OneLocker a → OneLocker (give_mutex a)
    given_back e (inl (_, nobody, _)) = absurd (ne (sym e ∙ nobody))
    given_back e (inr (gone, _, one)) = inl (omega arith, refl, omega arith)
