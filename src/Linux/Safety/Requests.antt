-- ===== src/Linux/Safety/Requests.antt =====
-- Every request that a program may send keeps the Linux driver sound and counts its owners.
pub mod Served
use gipcy.Base.{ℕ, ◌+◌, ◌^◌, ◌<◌, ◌≡◌, refl, inl, inr, ℤ, List, none, some, arith, Option-cases}
use gipcy.Driver.Ioctl.{Ptr, Name}
use gipcy.Linux.Ioctl.{CreateParam, UserArg}
use gipcy.Linux.Objects.{Driver}
use gipcy.Linux.Kernel.{Kernel, Ran, done, waits, oops, ◌>>=◌, Answers}
use gipcy.Linux.Entries.{open_entry, close_entry, use_entry}
use gipcy.Linux.Entries.Sound.{IsEntry}
use gipcy.Linux.Entries.Steps.{Harmless, use_entry-Answers}
use gipcy.Linux.Entries.Opening.{Allocates, opened, open_entry-Sound}
use gipcy.Linux.Entries.Closing.{closed, close_entry-Answers}
use gipcy.Linux.Entries.Owners.{owners}
use gipcy.Linux.Rw.{Answer, opens, serves}
use gipcy.Linux.Safety.{
  DriverSound, Part, semaphores, mutexes_part, events_part, memories, owners_of, only, Given, given,
  nothing, Openable,
}
use gipcy.Linux.Safety.Slots.{Slot}
use gipcy.Linux.Safety.Acts.{Kept}

-- The driver is sound afterwards, `took` and `gave` are the owners that it lost and gained.
pub record Moves (d : Driver) (took gave : Part → Name → ℕ) (d' : Driver) : Type 0 where
  pub sound : DriverSound d'
  pub counts : (k : Part) (n : Name) → owners_of k n d' + took k n ≡ owners_of k n d + gave k n

pub Answers-then :
    {A B : Type 0} (P : A → Type 0) (Q : B → Type 0) (m : Ran A) (f : A → B)
    → Answers P m
    → ((a : A) → P a → Q (f a))
    → Answers Q (m >>= λ a. done (f a))
Answers-then P Q (done a) f p h = h a p
Answers-then P Q waits f p h = tt
Answers-then P Q oops f p h = p

only-zero : (p k : Part) (n : Name) → only p (λ _. 0) k n ≡ 0
only-zero semaphores semaphores n = refl
only-zero semaphores mutexes_part n = refl
only-zero semaphores events_part n = refl
only-zero semaphores memories n = refl
only-zero mutexes_part semaphores n = refl
only-zero mutexes_part mutexes_part n = refl
only-zero mutexes_part events_part n = refl
only-zero mutexes_part memories n = refl
only-zero events_part semaphores n = refl
only-zero events_part mutexes_part n = refl
only-zero events_part events_part n = refl
only-zero events_part memories n = refl
only-zero memories semaphores n = refl
only-zero memories mutexes_part n = refl
only-zero memories events_part n = refl
only-zero memories memories n = refl

pub stays : (d : Driver) → DriverSound d → Moves d nothing nothing d
stays d s = record { sound = s; counts = λ k n. refl }

module _ {A : Type 0} (S : Slot A) (e : Kernel) (d : Driver) (s : DriverSound d) where
  pub use-Moves :
      (h : Ptr) (act : A → Ran (ℤ × A))
      → Harmless S.kind S.good e h (S.list d)
      → ((p : Ptr) (a : A) → IsEntry S.kind S.good p a → Answers (Kept S.kind S.good p a) (act a))
      → Answers
          (λ (x : ℤ × Driver). Moves d nothing nothing x.1)
          (use_entry S.kind e h act (S.list d) >>= λ x. done (x.0, S.put d x.1))
  use-Moves h act harmless keeps =
      Answers-then _ _ (use_entry S.kind e h act (S.list d)) _
        (use_entry-Answers S.kind S.good e h act (S.list d) (S.list-Sound d s) harmless keeps)
        (λ x (sound, same). record {
          sound = S.put-Sound d x.1 s sound;
          counts = λ k n.
              let all = S.owners-put d x.1 (λ _. 0) (λ _. 0) (λ m. omega (arith, same m)) k n in
              omega (arith, all, only-zero S.part k n);
        })

  pub close-Moves :
      (h : Ptr)
      → Harmless S.kind S.good e h (S.list d)
      → Answers
          (λ (x : ℤ × Driver). Moves d (only S.part (closed S.kind h (S.list d))) nothing x.1)
          (close_entry S.kind e h (S.list d) >>= λ x. done (x.0, S.put d x.1))
  close-Moves h harmless =
      Answers-then _ _ (close_entry S.kind e h (S.list d)) _
        (close_entry-Answers S.kind S.good S.lawful e h (S.list d) (S.list-Sound d s) harmless)
        (λ x (_, sound, fewer). record {
          sound = S.put-Sound d x.1 s sound;
          counts = λ k n.
              let all =
                S.owners-put d x.1 (closed S.kind h (S.list d)) (λ _. 0)
                  (λ m. omega (arith, fewer m)) k n in
              omega (arith, all, only-zero S.part k n);
        })

  pub open-Moves :
      (name : Name) (init : Ptr → A)
      → Allocates S.kind e (S.list d)
      → owners S.kind name (S.list d) + 1 < 2 ^ 32
      → ((q : Ptr)
          → (S.kind.name (init q) ≡ name)
            × (S.kind.id (init q) ≡ S.kind.magic)
            × (S.kind.owner_count (init q) ≡ 0)
            × S.good (init q))
      → Moves d nothing
          (only S.part (opened S.kind e name (S.list d)))
          (S.put d (open_entry S.kind e name init (S.list d)).1)
  open-Moves name init fresh room made =
      let (sound, more, _) =
        open_entry-Sound S.kind S.good S.lawful e name init (S.list d) (S.list-Sound d s) fresh room
          made in
      let cs = (open_entry S.kind e name init (S.list d)).1 in
      record {
        sound = S.put-Sound d cs s sound;
        counts = λ k n.
            let all =
              S.owners-put d cs (λ _. 0) (opened S.kind e name (S.list d))
                (λ m. omega (arith, more m)) k n in
            omega (arith, all, only-zero S.part k n);
      }

-- The copying around a request.
pub serves-Moves :
    {A : Type 0} (Q : A → Type 0) (took : A → Part → Name → ℕ) (run : A → Driver → Ran (ℤ × Driver))
    (arg : UserArg A) (d : Driver)
    → DriverSound d
    → Given arg Q
    → ((param : A) → Q param → Answers (λ x. Moves d (took param) nothing x.1) (run param d))
    → Answers (λ (x : Answer × Driver). Moves d (given arg took) nothing x.1) (serves run arg d)
serves-Moves Q took run arg d s q h = elim (Option-cases arg.readable) [
  | inl unreadable ↦ rw (unreadable, serves, given) (stays d s)
  | inr (param, read) ↦
      let ok = h param (rw (read, Given) at q) in
      rw (read, serves, given) (Answers-then _ _ (run param d) _ ok (λ x moved. moved))
]

pub opens-Moves :
    (Q : CreateParam → Type 0) (gave : CreateParam → Part → Name → ℕ)
    (create : CreateParam → Driver → Ptr × Driver) (arg : UserArg CreateParam) (d : Driver)
    → DriverSound d
    → Given arg Q
    → ((param : CreateParam) → Q param → Moves d nothing (gave param) (create param d).1)
    → Answers (λ (x : Answer × Driver). Moves d nothing (given arg gave) x.1) (opens create arg d)
opens-Moves Q gave create arg d s q h = elim (Option-cases arg.readable) [
  | inl unreadable ↦ rw (unreadable, opens, given) (stays d s)
  | inr (param, read) ↦ let ok = h param (rw (read, Given) at q) in rw (read, opens, given) ok
]

-- A request that opens and closes nothing.
pub uses-Moves :
    {A : Type 0} (Q : A → Type 0) (run : A → Driver → Ran (ℤ × Driver)) (arg : UserArg A)
    (d : Driver)
    → DriverSound d
    → Given arg Q
    → ((param : A) → Q param → Answers (λ x. Moves d nothing nothing x.1) (run param d))
    → Answers (λ (x : Answer × Driver). Moves d nothing nothing x.1) (serves run arg d)
uses-Moves Q run arg d s q h = elim (Option-cases arg.readable) [
  | inl unreadable ↦ rw (unreadable, serves) (stays d s)
  | inr (param, read) ↦
      let ok = h param (rw (read, Given) at q) in
      rw (read, serves) (Answers-then _ _ (run param d) _ ok (λ x moved. moved))
]
