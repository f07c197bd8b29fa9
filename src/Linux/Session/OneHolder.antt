-- ===== src/Linux/Session/OneHolder.antt =====
-- Mutual exclusion in the Linux driver: a mutex has one holder at most, whatever programs ask for.
use mathlib.Core.Path.{subst}
use gipcy.Base.{
  ℕ, ◌≡◌, sym, ◌∙◌, ◌≢◌, ◌⊎◌, inl, inr, ℤ, pos, negsuc, false, List, [], ◌∷◌, some, Bool-cases,
}
use gipcy.Driver.Ioctl.{Ptr}
use gipcy.Driver.Table.Cells.{at}
use gipcy.Linux.Objects.{Mutex, Driver}
use gipcy.Linux.Kernel.{Ran, done}
use gipcy.Linux.MutexPart.{same_int}
use gipcy.Linux.Safety.{DriverSound}
use gipcy.Linux.Safety.Acts.{same_int-eq}
use gipcy.Linux.Session.{
  capture, release, Among, without, Held, nobody, captured, refused, released, other,
}
use gipcy.Linux.Session.Balance.{served}
use gipcy.Linux.Session.Frame.{Ends}
use gipcy.Linux.Session.Untouched.{ipc_device_ioctl-Keeps}
use gipcy.Linux.Session.Mutexes.{same_int_refl, Outcome, Release, capture-Outcome, release-Release}

after : {X : Type 0} (P : X → Type 0) {m : Ran X} {x : X} → m ≡ done x → Ends P m → P x
after P run p = subst (Ends P) run p

Among-without : (x c : ℤ) (hs : List ℤ) → Among x (without c hs) → Among x hs × (x ≢ c)
Among-without x c [] among = absurd among
Among-without x c (y ∷ ys) among = elim (Bool-cases (same_int y c)) [
  | inl same ↦ let (in_rest, ne) = Among-without x c ys (rw same at among) in (inr in_rest, ne)
  | inr apart ↦ elim (rw apart at among) [
    | inl here ↦ (inl here, λ x_is. differ apart (sym here ∙ x_is))
    | inr in_rest ↦ let (rest, ne) = Among-without x c ys in_rest in (inr rest, ne)
  ]
]
  where
    differ : same_int y c ≡ false → y ≢ c
    differ apart y_is = let again = same_int_refl c in cc

without-Among : (x c : ℤ) (hs : List ℤ) → Among x hs → x ≢ c → Among x (without c hs)
without-Among x c [] among ne = among
without-Among x c (y ∷ ys) among ne = elim (Bool-cases (same_int y c)) [
  | inl same ↦ rw same (elim among [
    | inl here ↦ absurd (ne (here ∙ same_int-eq y c same))
    | inr in_rest ↦ without-Among x c ys in_rest ne
  ])
  | inr apart ↦
      rw apart
        (elim among [ inl here ↦ inl here | inr in_rest ↦ inr (without-Among x c ys in_rest ne) ])
]

-- The locker of an entry is each of the holders, and without a holder it has none.
pub record LockedBy (b : Mutex) (hs : List ℤ) : Type 0 where
  pub agree : (c : ℤ) → Among c hs → b.lockerid ≡ c
  pub named : (c : ℤ) → Among c hs → c ≢ pos 0
  pub owner : (b.lockerid ≡ pos 0) ⊎ Among b.lockerid hs

pub record OneHolder (q : Ptr) (d : Driver) (hs : List ℤ) : Type 0 where
  pub sound : DriverSound d
  pub entry : Mutex
  pub there : at q d.mutex_list ≡ some entry
  pub locked_by : LockedBy entry hs

captured_step :
    (c : ℤ) (a b : Mutex) (hs : List ℤ)
    → c ≢ pos 0
    → LockedBy a hs
    → Outcome c a (pos 0, b)
    → LockedBy b (c ∷ hs)
captured_step c a b hs ne before (inr (wrong, _)) = cc
captured_step c a b hs ne before (inl (_, mine, was)) = record {
  agree = λ x among. elim among [
    | inl x_is ↦ mine ∙ sym x_is
    | inr in_hs ↦ elim was [
      | inl again ↦ mine ∙ (sym again ∙ before.agree x in_hs)
      | inr free ↦ absurd (before.named x in_hs (sym (before.agree x in_hs) ∙ free))
    ]
  ];
  named = λ x among. elim among [
    | inl x_is ↦ λ zero_id. ne (sym x_is ∙ zero_id)
    | inr in_hs ↦ before.named x in_hs
  ];
  owner = inr (inl mine);
}

-- Nothing changes for an entry with the same locker.
same_locker : (a b : Mutex) (hs : List ℤ) → b.lockerid ≡ a.lockerid → LockedBy a hs → LockedBy b hs
same_locker a b hs same before = record {
  agree = λ x among. same ∙ before.agree x among;
  named = before.named;
  owner = rw same before.owner;
}

refused_step :
    (c : ℤ) (n : ℕ) (a b : Mutex) (hs : List ℤ)
    → LockedBy a hs
    → Outcome c a (negsuc n, b)
    → LockedBy b hs
refused_step c n a b hs before (inl (wrong, _, _)) = cc
refused_step c n a b hs before (inr (_, same)) = same_locker a b hs same before

released_step :
    (c : ℤ) (x : ℤ) (a b : Mutex) (hs : List ℤ)
    → LockedBy a hs
    → Release c a (x, b)
    → LockedBy b (without c hs)
released_step c x a b hs before (_, inl (mine, gone)) = record {
  agree = λ y among.
      let (in_hs, ne) = Among-without y c hs among in
      absurd (ne (sym (before.agree y in_hs) ∙ mine));
  named = λ y among. before.named y (Among-without y c hs among).0;
  owner = inl gone;
}
released_step c x a b hs before (_, inr (apart, same)) = record {
  agree = λ y among. rw same (before.agree y (Among-without y c hs among).0);
  named = λ y among. before.named y (Among-without y c hs among).0;
  owner = rw same (elim before.owner [
    | inl free ↦ inl free
    | inr in_hs ↦ inr (without-Among a.lockerid c hs in_hs apart)
  ]);
}

module _ (q : Ptr) (start : Driver) (s : DriverSound start) (a : Mutex)
    (there : at q start.mutex_list ≡ some a) (free : a.lockerid ≡ pos 0) where
  pub Held-OneHolder : {d : Driver} {hs : List ℤ} → Held q start d hs → OneHolder q d hs
  Held-OneHolder nobody = record {
    sound = s;
    entry = a;
    there = there;
    locked_by = record {
      agree = λ c among. absurd among;
      named = λ c among. absurd among;
      owner = inl free;
    };
  }
  Held-OneHolder (captured e c timeout {d} {d'} {hs} {x} held fair run granted) =
      let before = Held-OneHolder held in
      let (_, ne, calm) = fair in
      let (b, at_b, outcome) =
        after _ run (capture-Outcome e d before.sound q before.entry before.there c timeout calm) in
      record {
        sound = (served e (capture q c timeout) d d' x before.sound fair run).sound;
        entry = b;
        there = at_b;
        locked_by =
            captured_step c before.entry b hs ne before.locked_by
              (subst (λ n. Outcome c before.entry (n, b)) granted outcome);
      }
  Held-OneHolder (refused e c timeout n {d} {d'} {hs} {x} held fair run denied) =
      let before = Held-OneHolder held in
      let (_, _, calm) = fair in
      let (b, at_b, outcome) =
        after _ run (capture-Outcome e d before.sound q before.entry before.there c timeout calm) in
      record {
        sound = (served e (capture q c timeout) d d' x before.sound fair run).sound;
        entry = b;
        there = at_b;
        locked_by =
            refused_step c n before.entry b hs before.locked_by
              (subst (λ n. Outcome c before.entry (n, b)) denied outcome);
      }
  Held-OneHolder (released e c {d} {d'} {hs} {x} held fair run) =
      let before = Held-OneHolder held in
      let (b, at_b, gone) =
        after _ run (release-Release e d before.sound q before.entry before.there c) in
      record {
        sound = (served e (release q c) d d' x before.sound fair run).sound;
        entry = b;
        there = at_b;
        locked_by = released_step c x.error before.entry b hs before.locked_by gone;
      }
  Held-OneHolder (other e r {d} {d'} {hs} {x} held fair away run) =
      let before = Held-OneHolder held in
      let keeps = after _ run (ipc_device_ioctl-Keeps q e d r before.sound fair away) in
      let (b, at_b, same, _) = keeps before.entry before.there in
      record {
        sound = (served e r d d' x before.sound fair run).sound;
        entry = b;
        there = at_b;
        locked_by = same_locker before.entry b hs same before.locked_by;
      }

  -- Let `q` be the address of a mutex without a locker in a sound driver. Whatever fair requests
  -- programs send from then on, also releases by programs that do not hold it, but not to close it:
  -- all lockers whose captures of `q` were answered 0, and who did not release it since, are the same.
  pub Held-agree :
      {d : Driver} {hs : List ℤ} (b c : ℤ) → Held q start d hs → Among b hs → Among c hs → b ≡ c
  Held-agree b c held b_holds c_holds =
      let h = Held-OneHolder held in sym (h.locked_by.agree b b_holds) ∙ h.locked_by.agree c c_holds
