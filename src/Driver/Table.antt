-- ===== src/Driver/Table.antt =====
-- The loops that the four parts of the driver share, over one of its lists.
pub mod Cells
pub mod Walk
pub mod Sound
pub mod Steps
pub mod Update
pub mod Closing
pub mod Spec
pub mod Handle
use gipcy.Base.{
  ℕ, zero, suc, ◌+◌, ℤ, pos, List, [], ◌∷◌, ◌++◌, Option, none, some, ◌==◌, same_text,
  if◌then◌else◌, get_elem?, erase_at, length,
}
use gipcy.Driver.Ioctl.{Ptr, null, Name, invalid, busy}
use gipcy.Driver.Objects.{decrement}
use gipcy.Driver.Machine.{Env, Cmd, pure, fails, hangs, ◌>>=◌, ◌>>◌, get_driver, put_driver, store}
use gipcy.Driver.Struct.{Struct, load, add_owner}

module _ {A : Type 0} (S : Struct A) where
  -- The search of ipc_*_create by `strcmp`: the entry that sets `exist`, if there is one.
  unfoldable pub find_entry : Name → List Ptr → Cmd (Option Ptr)
  find_entry name [] = pure none
  find_entry name (p ∷ ps) = do
    entry ← load S p
    if same_text (S.name entry) name then pure (some p) else find_entry name ps

  -- The loop of ipc_*_close, with `error` as it stands: what is left of the list, and `error`
  -- afterwards. The loop breaks after an entry is erased, and goes on after one that is busy.
  unfoldable pub close_loop : Ptr → List Ptr → ℤ → Cmd (List Ptr × ℤ)
  close_loop handle [] error = pure ([], error)
  close_loop handle (p ∷ ps) error =
      let go_on : ℤ → Cmd (List Ptr × ℤ) =
        λ error'. close_loop handle ps error' >>= λ (ps', last). pure (p ∷ ps', last) in
      if p == handle
      then (do
        entry ← load S p
        let left = decrement (S.owner_count entry)
        if left == 0
            then (do store p none; pure (ps, pos 0))
            else (do store p (some (S.inject (S.with_owners entry left))); go_on busy))
      else go_on error

  -- The loop of ipc_*_close_all from index `i`, with its `used_counter`: `++i` follows the erasure of
  -- the entry at `i`. The fuel stands for the rounds; without it the loop would not have ended.
  unfoldable pub close_all_loop : ℕ → ℕ → List Ptr → ℕ → Cmd (List Ptr × ℕ)
  close_all_loop zero i ps used = hangs
  close_all_loop (suc k) i ps used = elim (get_elem? ps i) [
    | none ↦ pure (ps, used)
    | some p ↦ do
      entry ← load S p
      store p none
      close_all_loop k (i + 1) (erase_at ps i) (if S.owner_count entry == 0 then used else used + 1)
  ]

  -- The part of ipc_*_create between the lock and the answer: the entry with the name, or a new one,
  -- which `init` fills in, gets one more owner and gives its handle. If `malloc` fails, the answer
  -- reads the handle of a null entry.
  unfoldable pub open_entry : Env → Name → (Ptr → Cmd A) → Cmd Ptr
  unfolding get_driver put_driver store add_owner find_entry
  open_entry e name init = do
    d ← get_driver
    exist ← find_entry name (S.list d)
    entry ← elim exist [
      | some p ↦ pure p
      | none ↦ if e.fresh == null then fails else (do
        a ← init e.fresh
        store e.fresh (some (S.inject a))
        put_driver (S.with_list d (S.list d ++ e.fresh ∷ []))
        pure e.fresh)
    ]
    add_owner S entry
    a ← load S entry
    pure (S.handle a)

  -- The loop of ipc_*_close over the driver's list; `error` is -EINVAL before it.
  unfoldable pub close_entry : Ptr → Cmd ℤ
  unfolding get_driver put_driver close_loop
  close_entry handle = do
    d ← get_driver
    (ps, error) ← close_loop handle (S.list d) invalid
    put_driver (S.with_list d ps)
    pure error

  -- The loop of ipc_*_close_all over the driver's list: how many entries it freed had owners.
  unfoldable pub close_entries : Cmd ℕ
  unfolding get_driver put_driver close_all_loop
  close_entries = do
    d ← get_driver
    (ps, used) ← close_all_loop (length (S.list d) + 1) 0 (S.list d) 0
    put_driver (S.with_list d ps)
    pure used
