-- ===== src/Linux/Session/Frame.antt =====
-- A request that does not capture, release or close a mutex leaves its locker and its count.
use gipcy.Base.{
  ◌≡◌, refl, ◌≢◌, inl, inr, ℤ, Bool, true, false, List, [], ◌∷◌, ◌++◌, Option, some, arith, ◌==◌,
  if◌then◌else◌, Bool-cases, Option-cases,
}
use gipcy.Driver.Ioctl.{Ptr}
use gipcy.Driver.Table.Cells.{at, replace}
use gipcy.Linux.Ioctl.{CreateParam, UserArg, busy}
use gipcy.Linux.Objects.{Driver}
use gipcy.Linux.Kernel.{Ran, done, waits, oops, ◌>>=◌, atomic_dec}
use gipcy.Linux.Entries.{Kind, close_loop}
use gipcy.Linux.Rw.{Answer, opens, serves}

-- If the request is answered, the state is of this kind.
abbrev pub Ends : {X : Type 0} → (X → Type 0) → Ran X → Type 0
Ends P (done x) = P x
Ends P waits = Unit {0}
Ends P oops = Unit {0}

pub Ends-then :
    {X Y : Type 0} (P : X → Type 0) (Q : Y → Type 0) (m : Ran X) (f : X → Y)
    → Ends P m
    → ((x : X) → P x → Q (f x))
    → Ends Q (m >>= λ x. done (f x))
Ends-then P Q (done x) f p h = h x p
Ends-then P Q waits f p h = tt
Ends-then P Q oops f p h = tt

pub Ends-any :
    {X Y : Type 0} (Q : Y → Type 0) (m : Ran X) (f : X → Y)
    → ((x : X) → Q (f x))
    → Ends Q (m >>= λ x. done (f x))
Ends-any Q (done x) f h = h x
Ends-any Q waits f h = tt
Ends-any Q oops f h = tt

pub serves-Ends :
    {A : Type 0} (P : Driver → Type 0) (run : A → Driver → Ran (ℤ × Driver)) (arg : UserArg A)
    (d : Driver)
    → P d
    → ((param : A) → arg.readable ≡ some param → Ends (λ x. P x.1) (run param d))
    → Ends (λ (x : Answer × Driver). P x.1) (serves run arg d)
serves-Ends P run arg d p h = elim (Option-cases arg.readable) [
  | inl missing ↦ rw (missing, serves) p
  | inr (param, read) ↦ rw (read, serves) (Ends-then _ _ (run param d) _ (h param read) (λ x q. q))
]

pub opens-Ends :
    (P : Driver → Type 0) (create : CreateParam → Driver → Ptr × Driver) (arg : UserArg CreateParam)
    (d : Driver)
    → P d
    → ((param : CreateParam) → P (create param d).1)
    → Ends (λ (x : Answer × Driver). P x.1) (opens create arg d)
opens-Ends P create arg d p h = elim (Option-cases arg.readable) [
  | inl missing ↦ rw (missing, opens) p
  | inr (param, read) ↦ rw (read, opens) (h param)
]

module _ {A : Type 0} (K : Kind A) (q : Ptr) where
  pub at-replace_other :
      (p : Ptr) (b : A) (cs : List (Ptr × A)) → p ≢ q → at q (replace p b cs) ≡ at q cs
  at-replace_other p b [] ne = refl
  at-replace_other p b ((r, c) ∷ cs) ne = ground (arith, at-replace_other p b cs ne)

  pub at-append :
      (p : Ptr) (b s : A) (cs : List (Ptr × A))
      → at q cs ≡ some s
      → at q (cs ++ (p, b) ∷ []) ≡ some s
  at-append p b s [] e = cc
  at-append p b s ((r, c) ∷ cs) e = ground (arith, at-append p b s cs)

  pub at-close_loop :
      (p : Ptr) (error : ℤ) (cs : List (Ptr × A))
      → p ≢ q
      → at q (close_loop K p error cs).1 ≡ at q cs
  unfolding close_loop
  at-close_loop p error [] ne = refl
  at-close_loop p error ((r, c) ∷ cs) ne = elim (Bool-cases (r == p)) [
    | inl here ↦
        let away : (r == q) ≡ false = ground arith in
        elim (Bool-cases (atomic_dec (K.owner_count c) == 0)) [
          | inl last ↦ rw (here, last, away) refl
          | inr more ↦ rw (here, more, away) (at-close_loop p busy cs ne)
        ]
    | inr later ↦ rw later (step (r == q) (at-close_loop p error cs ne))
  ]
    where
      step :
          (b : Bool) {x y : Option A}
          → x ≡ y
          → (if b then some c else x) ≡ (if b then some c else y)
      step true e = refl
      step false e = e
