-- ===== src/Driver/Table/Handle.antt =====
-- The look at a client's handle, inside the lock, with which the operations on an entry begin: the
-- word behind the pointer is read before anything says that the pointer is one of the driver's.
use gipcy.Base.{ℕ, ◌-◌, ◌<◌, ◌≡◌, ℤ, List, none, some}
use gipcy.Driver.Ioctl.{Ptr, invalid}
use gipcy.Driver.Objects.{Object, Driver}
use gipcy.Driver.Machine.{Env, Memory, world, ok, fault, Cmd, pure, ◌>>=◌, sem_post}
use gipcy.Driver.Struct.{Struct, read_id, wait_lock, post_lock}
use gipcy.Driver.Table.Cells.{at, Holds-at}
use gipcy.Driver.Table.Sound.{Sound-at}
use gipcy.Driver.Table.Steps.{wait_lock-ok, post_lock-ok}
use gipcy.Driver.Table.Update.{InTable, restored}

module _ {A : Type 0} (S : Struct A) where
  -- `lock; read; unlock`, and what follows.
  abbrev pub identify : {X : Type 0} → Env → Ptr → (ℕ → Cmd X) → Cmd X
  identify e q k = wait_lock S >>= λ _. read_id S q >>= λ id. post_lock S e >>= λ _. k id

  pub read_id-word :
      (q : Ptr) (m : Memory) (d : Driver) (o : Object) (n : ℕ)
      → m q ≡ some o
      → S.id_word o ≡ some n
      → read_id S q (world m d) ≡ ok n (world m d)
  unfolding read_id
  read_id-word q m d o n e word = rw e (rw word)

  pub read_id-dangling :
      (q : Ptr) (m : Memory) (d : Driver) → m q ≡ none → read_id S q (world m d) ≡ fault
  unfolding read_id
  read_id-dangling q m d e = rw e

  -- A dangling pointer is followed.
  pub identify-dangling :
      {X : Type 0} (e : Env) (m : Memory) (d : Driver) (q : Ptr) (k : ℕ → Cmd X)
      → 0 < S.lock d
      → m q ≡ none
      → identify e q k (world m d) ≡ fault
  identify-dangling e m d q k free at_q =
      rw (wait_lock-ok S m d free, read_id-dangling q m (S.with_lock d (S.lock d - 1)) at_q)

  module _ (e : Env) (m : Memory) (d : Driver) {cs : List (Ptr × A)}
      (t : InTable S e.sem_value_max m d cs) where
    -- An entry of the table shows its identifier.
    pub read_id-at :
        (q : Ptr) (a : A) (d' : Driver)
        → at q cs ≡ some a
        → read_id S q (world m d') ≡ ok S.magic (world m d')
    read_id-at q a d' e_at =
        read_id-word q m d' (S.inject a) S.magic (Holds-at S m q cs t.holds e_at).1
          (Sound-at S q cs t.sound e_at).magic

    given_back :
        S.with_lock
          (S.with_lock d (S.lock d - 1))
          (sem_post e (S.lock (S.with_lock d (S.lock d - 1))))
        ≡ d
    given_back = rw (
      S.lock-with_lock d (S.lock d - 1),
      restored S e m d t.unlocked t.in_range,
      S.with_lock_back d (S.lock d - 1),
    )

    pub identify-word :
        {X : Type 0} (q : Ptr) (k : ℕ → Cmd X) (o : Object) (n : ℕ)
        → m q ≡ some o
        → S.id_word o ≡ some n
        → identify e q k (world m d) ≡ k n (world m d)
    identify-word q k o n at_q word = rw (
      wait_lock-ok S m d t.unlocked,
      read_id-word q m (S.with_lock d (S.lock d - 1)) o n at_q word,
      post_lock-ok S m (S.with_lock d (S.lock d - 1)) e,
      given_back,
    )

    pub identify-at :
        {X : Type 0} (q : Ptr) (k : ℕ → Cmd X) (a : A)
        → at q cs ≡ some a
        → identify e q k (world m d) ≡ k S.magic (world m d)
    identify-at q k a e_at =
        identify-word q k (S.inject a) S.magic (Holds-at S m q cs t.holds e_at).1
          (Sound-at S q cs t.sound e_at).magic

    -- The same read with the lock only posted, and only waited for.
    pub posted-at :
        {X : Type 0} (q : Ptr) (k : ℕ → Cmd X) (a : A)
        → at q cs ≡ some a
        → (post_lock S e >>= λ _. read_id S q >>= λ id. k id) (world m d)
          ≡ k S.magic (world m (S.with_lock d (sem_post e (S.lock d))))
    posted-at q k a e_at =
        rw (post_lock-ok S m d e, read_id-at q a (S.with_lock d (sem_post e (S.lock d))) e_at)

    pub waited-at :
        {X : Type 0} (q : Ptr) (k : ℕ → Cmd X) (a : A)
        → at q cs ≡ some a
        → (wait_lock S >>= λ _. read_id S q >>= λ id. k id) (world m d)
          ≡ k S.magic (world m (S.with_lock d (S.lock d - 1)))
    waited-at q k a e_at =
        rw (wait_lock-ok S m d t.unlocked, read_id-at q a (S.with_lock d (S.lock d - 1)) e_at)

    -- What is done inside the lock answers -EINVAL and changes nothing.
    pub refused-at :
        (q : Ptr) (body : ℕ → Cmd ℤ) (a : A)
        → at q cs ≡ some a
        → ((d' : Driver) → body S.magic (world m d') ≡ ok invalid (world m d'))
        → (wait_lock S >>= λ _.
              read_id S q >>= λ id. body id >>= λ error. post_lock S e >>= λ _. pure error)
            (world m d)
          ≡ ok invalid (world m d)
    refused-at q body a e_at refuses = rw (
      wait_lock-ok S m d t.unlocked,
      read_id-at q a (S.with_lock d (S.lock d - 1)) e_at,
      refuses (S.with_lock d (S.lock d - 1)),
      post_lock-ok S m (S.with_lock d (S.lock d - 1)) e,
      given_back,
    )
