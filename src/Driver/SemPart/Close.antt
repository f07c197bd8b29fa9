-- ===== src/Driver/SemPart/Close.antt =====
-- Closing: `ipc_sem_close` and `ipc_sem_close_all`.
use gipcy.Base.{
  ◌+◌, ◌-◌, ◌<◌, ◌≤◌, ◌<◌, ◌≡◌, ap, ◌∙◌, ◌≢◌, ℤ, pos, false, none, some, arith, ◌==◌, if◌then◌else◌,
  if_not,
}
use gipcy.Driver.Ioctl.{Ptr, null, invalid, busy, lock_param, close_param}
use gipcy.Driver.Objects.{Sem, a_sem, sem_id, Driver}
use gipcy.Driver.Machine.{Env, Memory, world, ok, fault, Returns, Cmd, pure, ◌>>=◌, write, sem_post}
use gipcy.Driver.Struct.{sems, post_lock}
use gipcy.Driver.Table.{close_entry}
use gipcy.Driver.Table.Cells.{at, addresses, Holds-at}
use gipcy.Driver.Table.Walk.{skipped, deleted, in_use, free_all}
use gipcy.Driver.Table.Steps.{write_self}
use gipcy.Driver.Table.Closing.{close-last, close-busy}
use gipcy.Driver.Table.Spec.{
  close_cells, close_result, close-Update, close_all-skipped, sem_post_range,
}
use gipcy.Driver.Table.Handle.{posted-at, identify-dangling}
use gipcy.Driver.Registry.{Registry, Realises, RealisedBy, Returns-sems}
use gipcy.Driver.SemPart.{ipc_sem_lock, ipc_sem_close, ipc_sem_close_all, take_sem}

-- A lock through a pointer to freed memory follows it.
pub ipc_sem_lock-dangling :
    (e : Env) (m : Memory) (d : Driver) (q : Ptr) (timeout : ℤ)
    → q ≢ null
    → 0 < d.sem_lock
    → m q ≡ none
    → ipc_sem_lock e (some (lock_param q timeout)) (world m d) ≡ fault
unfolding ipc_sem_lock
ipc_sem_lock-dangling e m d q timeout ne free gone =
    let here : (q == null) ≡ false = ground arith in
    ap (λ (c : Cmd ℤ). c (world m d)) (if_not (q == null) (pure invalid) _ here)
    ∙ identify-dangling sems e m d q
        (λ id. if id == sem_id then take_sem e (lock_param q timeout) else pure invalid) free gone

module _ (e : Env) (m : Memory) (d : Driver) (r : Registry)
    (is : Realises e.sem_value_max m d r) where
  not_null : (q : Ptr) → q ≢ null → (q == null) ≡ false
  not_null q ne = ground arith

  known_not_null : (q : Ptr) (s : Sem) → at q r.sem_cells ≡ some s → (q == null) ≡ false
  known_not_null q s known = not_null q (Holds-at sems m q r.sem_cells is.in_sems.holds known).0

  -- Up to the loop: the lock is posted, and the entry shows its identifier.
  ipc_sem_close-known :
      (q : Ptr) (s : Sem)
      → at q r.sem_cells ≡ some s
      → ipc_sem_close e (some (close_param q)) (world m d)
        ≡ (close_entry sems q >>= λ error. post_lock sems e >>= λ _. pure error)
            (world m (record d { sem_lock = sem_post e d.sem_lock }))
  unfolding ipc_sem_close
  ipc_sem_close-known q s known =
      ap (λ (c : Cmd ℤ). c (world m d))
        (if_not (q == null) (pure invalid) _ (known_not_null q s known))
      ∙ posted-at sems e m d is.in_sems q
          (λ id. (if id == sem_id then close_entry sems q else pure invalid) >>= λ error.
            post_lock sems e >>= λ _. pure error)
          s known

  -- In a world that realises a registry, for the handle of an entry, ipc_sem_close answers 0 and
  -- removes the entry if it had one owner, and else answers -EBUSY and takes one owner off; the world
  -- then realises the registry so changed.
  pub ipc_sem_close-Realises :
      (q : Ptr) (s : Sem)
      → at q r.sem_cells ≡ some s
      → Returns
          (λ x w.
            (x ≡ close_result sems q r.sem_cells)
            × RealisedBy e.sem_value_max w
                (record r { sem_cells = close_cells sems q r.sem_cells }))
          (ipc_sem_close e (some (close_param q)) (world m d))
  ipc_sem_close-Realises q s known =
      let k = sem_post e d.sem_lock in
      let (more, within) = sem_post_range e d.sem_lock is.in_sems.unlocked is.in_sems.in_range in
      let (more', within') = sem_post_range e k more within in
      rw (ipc_sem_close-known q s known) (
        Returns-sems is (close_result sems q r.sem_cells) (close_cells sems q r.sem_cells) _
          (close-Update sems e m d is.in_sems q k s more' within' known))

  -- In a world that realises a registry, for the handle of an entry with more owners than one and a
  -- lock that is at least two below SEM_VALUE_MAX, ipc_sem_close leaves the count of the lock of the
  -- list two higher than it was.
  pub ipc_sem_close-posts :
      (q : Ptr) (s : Sem)
      → at q r.sem_cells ≡ some s
      → 1 < s.owner_count
      → d.sem_lock + 2 ≤ e.sem_value_max
      → ipc_sem_close e (some (close_param q)) (world m d)
        ≡ ok busy (
            world
              (write m q (some (a_sem (record s { owner_count = s.owner_count - 1 }))))
              (record d { sem_lock = d.sem_lock + 2 }))
  unfolding sem_post
  ipc_sem_close-posts q s known more below =
      let k = sem_post e d.sem_lock in
      let (above, within) = sem_post_range e d.sem_lock is.in_sems.unlocked is.in_sems.in_range in
      let (above', within') = sem_post_range e k above within in
      let (run, _) = close-busy sems e m d is.in_sems q k above' within' s known more in
      let twice : sem_post e (sem_post e d.sem_lock) ≡ d.sem_lock + 2 = ground arith in
      let left : Sem = record s { owner_count = s.owner_count - 1 } in
      rw (ipc_sem_close-known q s known, run)
        (ap (λ n. ok busy (world (write m q (some (a_sem left))) (record d { sem_lock = n })))
          twice)

  -- In a world that realises a registry, the handle of an entry with one owner, closed by
  -- ipc_sem_close and then used for ipc_sem_lock, is followed after `free`.
  pub ipc_sem_lock-closed :
      (q : Ptr) (s : Sem) (timeout : ℤ)
      → at q r.sem_cells ≡ some s
      → s.owner_count ≡ 1
      → (ipc_sem_close e (some (close_param q)) >>= λ _.
            ipc_sem_lock e (some (lock_param q timeout)))
          (world m d)
        ≡ fault
  ipc_sem_lock-closed q s timeout known one =
      let k = sem_post e d.sem_lock in
      let (more, within) = sem_post_range e d.sem_lock is.in_sems.unlocked is.in_sems.in_range in
      let (more', within') = sem_post_range e k more within in
      let (run, _) = close-last sems e m d is.in_sems q k more' within' s known one in
      let ne = (Holds-at sems m q r.sem_cells is.in_sems.holds known).0 in
      rw (ipc_sem_close-known q s known, run)
        (ipc_sem_lock-dangling e (write m q none) _ q timeout ne more' (write_self m q none))

  -- In a world that realises a registry, ipc_sem_close_all frees the first entry, the third and so on,
  -- leaves the others in the list and in memory, and answers -EBUSY exactly if a freed one had owners.
  pub ipc_sem_close_all-skipped :
      ipc_sem_close_all e (world m d)
      ≡ ok (if in_use sems (deleted sems r.sem_cells) == 0 then pos 0 else busy) (
          world
            (free_all sems m (deleted sems r.sem_cells))
            (record d { sem_list = addresses (skipped sems r.sem_cells) }))
  unfolding ipc_sem_close_all
  ipc_sem_close_all-skipped =
      close_all-skipped sems e m d is.in_sems (λ used. if used == 0 then pos 0 else busy)
