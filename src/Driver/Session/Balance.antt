-- ===== src/Driver/Session/Balance.antt =====
-- What one request does to the sum of the count of a mutex and the number of its holders: it keeps it,
-- unless a signal ends a wait, which adds a holder.
use gipcy.Base.{
  ℕ, suc, ◌+◌, ◌-◌, ◌<◌, ◌≤◌, ◌≡◌, Bool, true, false, ◌&&◌, refl, ap, sym, ◌∙◌, ◌≢◌, inl, inr, ℤ,
  Bool-cases, List, [], ◌∷◌, Option, some, arith, ◌==◌,
}
use gipcy.Driver.Ioctl.{Ptr}
use gipcy.Driver.Objects.{Mutex, a_mutex, Driver, increment, decrement}
use gipcy.Driver.Machine.{Env, Timespec, Memory, World, world, Run, ok, blocked, write, sem_post}
use gipcy.Driver.Table.Cells.{at, replace, at-replace}
use gipcy.Driver.Registry.{Registry, Realises}
use gipcy.Driver.MutexPart.Lock.{recount, recount-Realises}
use gipcy.Driver.Devctl.{Response, error, reply}
use gipcy.Driver.Session.{at_time, capture, release}
use gipcy.Driver.Session.Answers.{Captures, capture-cases, release-ok}

at-replace_other :
    (p q : Ptr) (b : Mutex) (cs : List (Ptr × Mutex)) → p ≢ q → at p (replace q b cs) ≡ at p cs
at-replace_other p q b [] ne = refl
at-replace_other p q b ((x, a) ∷ cs) ne = ground (arith, at-replace_other p q b cs)

-- Every entry of the first table is still one.
unfoldable pub Stays : List (Ptr × Mutex) → List (Ptr × Mutex) → Type 0
Stays cs now = (p : Ptr) (a : Mutex) → at p cs ≡ some a → (b : Mutex) × (at p now ≡ some b)

Stays-replace :
    (cs now : List (Ptr × Mutex)) (q : Ptr) (s b : Mutex)
    → at q now ≡ some s
    → Stays cs now
    → Stays cs (replace q b now)
unfolding Stays
Stays-replace cs now q s b there stays p a e = elim (Bool-cases (p == q)) [
  | inl same ↦ (b, (let here : p ≡ q = ground arith in rw here (at-replace q s b now there)))
  | inr other ↦ let (c, f) = stays p a e in (c, at-replace_other p q b now (ground arith) ∙ f)
]

-- The mutex `q` is in the registry, with a count that makes 1 or more with the number of holders, and 1 if
-- no signals come.
pub record Balanced (signals : Bool) (max : ℕ) (q : Ptr) (cs : List (Ptr × Mutex)) (w : World)
    (n : ℕ) : Type 0 where
  pub memory : Memory
  pub driver : Driver
  pub registry : Registry
  pub entry : Mutex
  pub runs : w ≡ world memory driver
  pub realises : Realises max memory driver registry
  pub known : at q registry.mutex_cells ≡ some entry
  pub enough : 1 ≤ entry.mutex + n
  pub balance : signals ≡ false → entry.mutex + n ≡ 1
  pub stays : Stays cs registry.mutex_cells

ends_same :
    (f : World → Run Response) {w v w' v' : World} {x y : Response}
    → w ≡ v
    → f w ≡ ok x w'
    → f v ≡ ok y v'
    → (x ≡ y) × (w' ≡ v')
ends_same f same e e' = let p = ap f same in (cc, cc)

never_ends :
    (f : World → Run Response) {w v w' : World} {x : Response}
    → w ≡ v
    → f w ≡ ok x w'
    → f v ≡ blocked
    → ⊥
never_ends f same e e' = let p = ap f same in cc

-- A release by the only holder.
posted : (e : Env) (n k : ℕ) → (n ≡ 0) × (k ≡ 0) → 0 < e.sem_value_max → sem_post e n + k ≡ 1
unfolding sem_post
posted e n k (none_left, last) some_room = ground arith

posted_some : (e : Env) (n k : ℕ) → 0 < e.sem_value_max → 1 ≤ sem_post e n + k
unfolding sem_post
posted_some e n k some_room = ground arith

no_signal : (signals signal : Bool) → signals ≡ false → (signals && signal) ≡ true → ⊥
no_signal true signal quiet come = cc
no_signal false signal quiet come = cc

positive : {max : ℕ} {m : Memory} {d : Driver} {r : Registry} → Realises max m d r → 0 < max
positive is = omega (arith, is.in_mutexes.unlocked, is.in_mutexes.in_range)

module _ (e : Env) (q : Ptr) (cs : List (Ptr × Mutex)) {w w' : World} {n : ℕ}
    (b : Balanced e.interrupted e.sem_value_max q cs w n) where
  unchanged : w' ≡ world b.memory b.driver → Balanced e.interrupted e.sem_value_max q cs w' n
  unchanged e' = record {
    memory = b.memory;
    driver = b.driver;
    registry = b.registry;
    entry = b.entry;
    runs = e';
    realises = b.realises;
    known = b.known;
    enough = b.enough;
    balance = b.balance;
    stays = b.stays;
  }

  -- Other counts in the entry, and another number of holders.
  recounted :
      (k c n' : ℕ)
      → 1 ≤ k + n'
      → (e.interrupted ≡ false → k + n' ≡ 1)
      → let s = record b.entry { mutex = k; lock_count = c } in
        w' ≡ world (write b.memory q (some (a_mutex s))) b.driver
        → Balanced e.interrupted e.sem_value_max q cs w' n'
  recounted k c n' enough balance e' =
      let s : Mutex = record b.entry { mutex = k; lock_count = c } in
      record {
        memory = write b.memory q (some (a_mutex s));
        driver = b.driver;
        registry = recount b.registry q s;
        entry = s;
        runs = e';
        realises = recount-Realises e b.memory b.driver b.registry b.realises q b.entry b.known k c;
        known = at-replace q b.entry s b.registry.mutex_cells b.known;
        enough = enough;
        balance = balance;
        stays = Stays-replace cs b.registry.mutex_cells q b.entry s b.known b.stays;
      }

  -- Other counts in another entry.
  recounted_other :
      (p : Ptr) (a : Mutex) (k c : ℕ)
      → p ≢ q
      → at p b.registry.mutex_cells ≡ some a
      → let s = record a { mutex = k; lock_count = c } in
        w' ≡ world (write b.memory p (some (a_mutex s))) b.driver
        → Balanced e.interrupted e.sem_value_max q cs w' n
  recounted_other p a k c other there e' =
      let s : Mutex = record a { mutex = k; lock_count = c } in
      record {
        memory = write b.memory p (some (a_mutex s));
        driver = b.driver;
        registry = recount b.registry p s;
        entry = b.entry;
        runs = e';
        realises = recount-Realises e b.memory b.driver b.registry b.realises p a there k c;
        known = at-replace_other q p s b.registry.mutex_cells (λ same. other (sym same)) ∙ b.known;
        enough = b.enough;
        balance = b.balance;
        stays = Stays-replace cs b.registry.mutex_cells p a s there b.stays;
      }

  pub captured_step :
      (now : Timespec) (signal : Bool) (t : ℤ) {h : Option Ptr}
      → capture (at_time e now signal) q t w ≡ ok (reply h) w'
      → Balanced e.interrupted e.sem_value_max q cs w' (suc n)
  unfolding Captures
  captured_step now signal t answer =
      let f = capture (at_time e now signal) q t in
      elim (capture-cases (at_time e now signal) b.memory b.driver b.registry b.realises q b.entry
        b.known t) [
          | inl never ↦ absurd (never_ends f b.runs answer never)
          | inr (inl (z, no_count)) ↦ let same = ends_same f b.runs answer no_count in cc
          | inr (inr (inl (free, got))) ↦
              recounted (b.entry.mutex - 1) (increment b.entry.lock_count) (suc n) (omega arith)
                (λ quiet. omega (arith, b.balance quiet)) (ends_same f b.runs answer got).1
          | inr (inr (inr (come, z, got))) ↦
              recounted b.entry.mutex (increment b.entry.lock_count) (suc n) (omega arith)
                (λ quiet. absurd (no_signal e.interrupted signal quiet come))
                (ends_same f b.runs answer got).1
        ]

  pub refused_step :
      (now : Timespec) (signal : Bool) (t x : ℤ)
      → capture (at_time e now signal) q t w ≡ ok (error x) w'
      → Balanced e.interrupted e.sem_value_max q cs w' n
  unfolding Captures
  refused_step now signal t x answer =
      let f = capture (at_time e now signal) q t in
      elim (capture-cases (at_time e now signal) b.memory b.driver b.registry b.realises q b.entry
        b.known t) [
          | inl never ↦ absurd (never_ends f b.runs answer never)
          | inr (inl (z, no_count)) ↦ unchanged (ends_same f b.runs answer no_count).1
          | inr (inr (inl (free, got))) ↦ let same = ends_same f b.runs answer got in cc
          | inr (inr (inr (come, z, got))) ↦ let same = ends_same f b.runs answer got in cc
        ]

  pub captured_other_step :
      (now : Timespec) (signal : Bool) (p : Ptr) (a : Mutex) (t : ℤ) {x : Response}
      → p ≢ q
      → at p b.registry.mutex_cells ≡ some a
      → capture (at_time e now signal) p t w ≡ ok x w'
      → Balanced e.interrupted e.sem_value_max q cs w' n
  unfolding Captures
  captured_other_step now signal p a t other there answer =
      let f = capture (at_time e now signal) p t in
      elim (capture-cases (at_time e now signal) b.memory b.driver b.registry b.realises p a there
        t) [
          | inl never ↦ absurd (never_ends f b.runs answer never)
          | inr (inl (z, no_count)) ↦ unchanged (ends_same f b.runs answer no_count).1
          | inr (inr (inl (free, got))) ↦
              recounted_other p a (a.mutex - 1) (increment a.lock_count) other there
                (ends_same f b.runs answer got).1
          | inr (inr (inr (come, z, got))) ↦
              recounted_other p a a.mutex (increment a.lock_count) other there
                (ends_same f b.runs answer got).1
        ]

  pub released_other_step :
      (now : Timespec) (signal : Bool) (p : Ptr) (a : Mutex) {x : Response}
      → p ≢ q
      → at p b.registry.mutex_cells ≡ some a
      → release (at_time e now signal) p w ≡ ok x w'
      → Balanced e.interrupted e.sem_value_max q cs w' n
  released_other_step now signal p a other there answer =
      let got =
        release-ok (at_time e now signal) b.memory b.driver b.registry b.realises p a there in
      recounted_other p a (sem_post (at_time e now signal) a.mutex) (decrement a.lock_count) other
        there (ends_same (release (at_time e now signal) p) b.runs answer got).1

  pub released_step :
      (now : Timespec) (signal : Bool) (k : ℕ) {x : Response}
      → n ≡ suc k
      → release (at_time e now signal) q w ≡ ok x w'
      → Balanced e.interrupted e.sem_value_max q cs w' k
  released_step now signal k some_one answer =
      let got =
        release-ok (at_time e now signal) b.memory b.driver b.registry b.realises q b.entry
          b.known in
      recounted (sem_post (at_time e now signal) b.entry.mutex) (decrement b.entry.lock_count) k
        (posted_some (at_time e now signal) b.entry.mutex k (positive b.realises))
        (λ quiet.
          let one = b.balance quiet in
          posted (at_time e now signal) b.entry.mutex k (omega arith, omega arith)
            (positive b.realises))
        (ends_same (release (at_time e now signal) q) b.runs answer got).1
