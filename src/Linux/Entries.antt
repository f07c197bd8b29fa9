-- ===== src/Linux/Entries.antt =====
-- The four lists of linux/ipcdrv: ipcsem.c, ipcmutex.c, ipcevent.c and ipcshm.c search, open and close
-- them with the same code, each with its own structure, which is the record `Kind` here.
pub mod Sound
pub mod Owners
pub mod Steps
pub mod Opening
pub mod Closing
use gipcy.Base.{
  ℕ, ◌+◌, ℤ, pos, List, [], ◌∷◌, ◌++◌, Option, none, some, ◌==◌, if◌then◌else◌, same_text,
}
use gipcy.Driver.Ioctl.{Ptr, null, Name}
use gipcy.Driver.Table.Cells.{at, replace}
use gipcy.Linux.Ioctl.{invalid, busy}
use gipcy.Linux.Kernel.{
  Kernel, Ran, done, oops, ◌>>=◌, atomic_inc, atomic_dec, user_handle, container_of,
}

pub record Kind (A : Type 0) : Type 0 where
  pub name : A → Name
  pub owner_count : A → ℕ
  pub with_owners : A → ℕ → A
  pub id : A → ℕ
  pub magic : ℕ

-- What `container_of` and the test of the identifier find for a handle: an entry of the list, nothing
-- with the identifier, memory that has the identifier and is no entry, or memory that cannot be read.
pub data Checked (A : Type 0) : Type 0 where
  known : Ptr → A → Checked A
  no_object : Checked A
  forged : Ptr → Checked A
  unreadable : Checked A

module _ {A : Type 0} (K : Kind A) where
  unfoldable pub check : Kernel → Ptr → List (Ptr × A) → Checked A
  check e handle cs =
      let p = container_of handle in
      if p == null then no_object else elim (at p cs) [
        | some a ↦ if K.id a == K.magic then known p a else no_object
        | none ↦ elim (e.stray p) [
          | none ↦ unreadable
          | some word ↦ if word == K.magic then forged p else no_object
        ]
      ]

  -- The loop of ipc_*_create: the first entry with the name.
  abbrev pub find_entry : Name → List (Ptr × A) → Option (Ptr × A)
  find_entry name [] = none
  find_entry name ((p, a) ∷ cs) =
      if same_text (K.name a) name then some (p, a) else find_entry name cs

  abbrev pub add_owner : A → A
  add_owner a = K.with_owners a (atomic_inc (K.owner_count a))

  -- ipc_*_create behind its tests: the handle that it returns, and the list. `init` is the new entry.
  unfoldable pub open_entry : Kernel → Name → (Ptr → A) → List (Ptr × A) → Ptr × List (Ptr × A)
  open_entry e name init cs = elim (find_entry name cs) [
    | some (p, a) ↦ (user_handle p, replace p (add_owner a) cs)
    | none ↦ elim e.allocated [
      | none ↦ (user_handle null, cs)
      | some p ↦ (user_handle p, cs ++ (p, add_owner (init p)) ∷ [])
    ]
  ]

  -- The loop of ipc_*_close, which goes on behind an entry that it leaves.
  unfoldable pub close_loop : Ptr → ℤ → List (Ptr × A) → ℤ × List (Ptr × A)
  close_loop handle error [] = (error, [])
  close_loop handle error ((p, a) ∷ cs) =
      let owners = atomic_dec (K.owner_count a) in
      let (last, rest) = close_loop handle (if p == handle then busy else error) cs in
      if p == handle
      then (if owners == 0 then (pos 0, cs) else (last, (p, K.with_owners a owners) ∷ rest))
      else (last, (p, a) ∷ rest)

  abbrev pub close_checked : List (Ptr × A) → Checked A → Ran (ℤ × List (Ptr × A))
  close_checked cs (known p a) = done (close_loop p invalid cs)
  close_checked cs no_object = done (invalid, cs)
  close_checked cs (forged p) = done (close_loop p invalid cs)
  close_checked cs unreadable = oops

  -- ipc_*_close.
  unfoldable pub close_entry : Kernel → Ptr → List (Ptr × A) → Ran (ℤ × List (Ptr × A))
  close_entry e handle cs =
      if handle == null then done (invalid, cs) else close_checked cs (check e handle cs)

  -- The loop of ipc_*_close_all: how many of the entries that it frees have owners, and the list.
  unfoldable pub close_all_loop : ℕ → List (Ptr × A) → ℕ × List (Ptr × A)
  close_all_loop used [] = (used, [])
  close_all_loop used ((p, a) ∷ cs) =
      close_all_loop (if K.owner_count a == 0 then used else used + 1) cs

  unfoldable pub close_all : List (Ptr × A) → ℤ × List (Ptr × A)
  close_all cs = let (used, rest) = close_all_loop 0 cs in (if used == 0 then pos 0 else busy, rest)

  -- ipc_*_lock, ipc_*_unlock and ipc_event_reset find their entry with the same code; `act` is what
  -- each does with it.
  abbrev pub use_checked : List (Ptr × A) → (A → Ran (ℤ × A)) → Checked A → Ran (ℤ × List (Ptr × A))
  use_checked cs act (known p a) = do (error, b) ← act a; done (error, replace p b cs)
  use_checked cs act no_object = done (invalid, cs)
  use_checked cs act (forged p) = oops
  use_checked cs act unreadable = oops

  unfoldable pub use_entry :
      Kernel → Ptr → (A → Ran (ℤ × A)) → List (Ptr × A) → Ran (ℤ × List (Ptr × A))
  use_entry e handle act cs =
      if handle == null then done (invalid, cs) else use_checked cs act (check e handle cs)
