-- ===== src/Driver/Session/Exclusion.antt =====
-- Mutual exclusion: a mutex has one holder at most, and none is kept out for no reason.
use gipcy.Base.{
  ℕ, ◌≤◌, ◌≡◌, refl, ap, sym, ◌∙◌, ℤ, pos, negsuc, neg, Bool, true, false, List, [], ◌∷◌, ◌++◌,
  none, some, arith, length, length-append,
}
use gipcy.Driver.Ioctl.{Ptr}
use gipcy.Driver.Objects.{Mutex, Driver}
use gipcy.Driver.Machine.{Env, Timespec, Memory, World, world, ok, blocked, Returns}
use gipcy.Driver.Table.Cells.{at}
use gipcy.Driver.Registry.{Registry, Realises}
use gipcy.Driver.Devctl.{error, reply}
use gipcy.Driver.Session.{
  at_moment, capture, Held, nobody, captured, refused, released, captured_other, released_other,
}
use gipcy.Driver.Session.Answers.{
  capture-free, capture-timeout, capture-blocked, capture-interrupted,
}
use gipcy.Driver.Session.Balance.{
  Stays, Balanced, captured_step, refused_step, captured_other_step, released_other_step,
  released_step,
}

module _ (e : Env) (m : Memory) (d : Driver) (r : Registry) (is : Realises e.sem_value_max m d r)
    (q : Ptr) (s : Mutex) (known : at q r.mutex_cells ≡ some s) (one : s.mutex ≡ 1) where
  Held-Balanced :
      {w : World} {hs : List ℕ}
      → Held e q r.mutex_cells (world m d) w hs
      → Balanced e.interrupted e.sem_value_max q r.mutex_cells w (length hs)
  unfolding Stays
  Held-Balanced nobody = record {
    memory = m;
    driver = d;
    registry = r;
    entry = s;
    runs = refl;
    realises = is;
    known = known;
    enough = omega arith;
    balance = λ quiet. omega arith;
    stays = λ p a there. (a, there);
  }
  Held-Balanced (captured now sig c t held answer) =
      captured_step e q r.mutex_cells (Held-Balanced held) now sig t answer
  Held-Balanced (refused now sig t x held answer) =
      refused_step e q r.mutex_cells (Held-Balanced held) now sig t x answer
  Held-Balanced (released now sig c xs ys held answer) =
      released_step e q r.mutex_cells (Held-Balanced held) now sig (length (xs ++ ys))
        (omega (arith, length-append xs (c ∷ ys), length-append xs ys)) answer
  Held-Balanced (captured_other now sig p a t other there held answer) =
      let b = Held-Balanced held in
      let (c, still) = b.stays p a there in
      captured_other_step e q r.mutex_cells b now sig p c t other still answer
  Held-Balanced (released_other now sig p a other there held answer) =
      let b = Held-Balanced held in
      let (c, still) = b.stays p a there in
      released_other_step e q r.mutex_cells b now sig p c other still answer

  -- In a world that realises a registry, let `q` be an entry of the mutex table with the count 1.
  -- Whatever clients ask to capture and release mutexes from then on, with any timeouts, as long as a
  -- client releases `q` only while it holds it and no signal ends a wait: at most one client holds `q`.
  pub Held-exclusive :
      {w : World} {hs : List ℕ}
      → e.interrupted ≡ false
      → Held e q r.mutex_cells (world m d) w hs
      → length hs ≤ 1
  Held-exclusive quiet held = let one = (Held-Balanced held).balance quiet in omega arith

  -- In a session that starts in a world that realises a registry, with an entry `q` of count 1 that
  -- clients release only while they hold it: while nobody holds `q`, the driver answers the next request
  -- to capture it with success, whatever its timeout, and whatever signals came before or come now.
  pub capture-granted :
      {w : World} (now : Timespec) (signal : Bool) (t : ℤ)
      → Held e q r.mutex_cells (world m d) w []
      → Returns (λ x v. x ≡ reply none) (capture (at_moment e now signal) q t w)
  capture-granted now signal t held =
      let b = Held-Balanced held in
      let e' = at_moment e now signal in
      let granted =
        capture-free e' b.memory b.driver b.registry b.realises q b.entry b.known t
          (omega (arith, b.enough)) in
      rw (ap (capture e' q t) b.runs ∙ granted) refl

  -- In a session that starts in a world that realises a registry, with an entry `q` of count 1 that
  -- clients release only while they hold it, and in which no signal has ended a wait: while a client
  -- holds `q`, a request to capture it with a negative timeout is not answered as long as no signal
  -- comes, and is answered with success if a signal ends its wait; with a timeout of 0 or more it is
  -- answered -1 and changes nothing.
  pub capture-excluded :
      {w : World} {c : ℕ} {hs : List ℕ} (now : Timespec) (n : ℕ)
      → e.interrupted ≡ false
      → Held e q r.mutex_cells (world m d) w (c ∷ hs)
      → (capture (at_moment e now false) q (negsuc n) w ≡ blocked)
        × Returns (λ x v. x ≡ reply none) (capture (at_moment e now true) q (negsuc n) w)
        × ((signal : Bool) → capture (at_moment e now signal) q (pos n) w ≡ ok (error (neg 1)) w)
  capture-excluded now n quiet held =
      let b = Held-Balanced held in
      let one = b.balance quiet in
      let taken : b.entry.mutex ≡ 0 = omega arith in
      let still = at_moment e now false in
      let come = at_moment e now true in
      (
        ap (capture still q (negsuc n)) b.runs
            ∙ capture-blocked still b.memory b.driver b.registry b.realises q b.entry b.known n
                taken refl,
        rw
            (ap (capture come q (negsuc n)) b.runs
              ∙ capture-interrupted come b.memory b.driver b.registry b.realises q b.entry b.known n
                  taken refl)
            refl,
        λ signal.
            let e' = at_moment e now signal in
            ap (capture e' q (pos n)) b.runs
            ∙ (capture-timeout e' b.memory b.driver b.registry b.realises q b.entry b.known n taken
                ∙ ap (ok (error (neg 1))) (sym b.runs)),
      )
