-- ===== src/Driver/EventPart/Close.antt =====
-- Closing: `ipc_event_close` and `ipc_event_close_all` and `ipc_event_reset`.
use gipcy.Base.{◌≡◌, refl, ap, ◌∙◌, ℤ, pos, false, some, arith, ◌==◌, if◌then◌else◌, if_not}
use gipcy.Driver.Ioctl.{Ptr, null, invalid, busy, close_param}
use gipcy.Driver.Objects.{Event, mutex_id, Driver}
use gipcy.Driver.Machine.{Env, Memory, world, ok, Cmd, pure}
use gipcy.Driver.Struct.{events}
use gipcy.Driver.Table.{close_entry}
use gipcy.Driver.Table.Cells.{at, addresses, Holds-at}
use gipcy.Driver.Table.Walk.{skipped, deleted, in_use, free_all}
use gipcy.Driver.Table.Spec.{close_all-skipped}
use gipcy.Driver.Table.Handle.{refused-at, identify-at}
use gipcy.Driver.Registry.{Registry, Realises}
use gipcy.Driver.EventPart.{ipc_event_close, ipc_event_close_all, ipc_event_reset, give_event}

module _ (e : Env) (m : Memory) (d : Driver) (r : Registry)
    (is : Realises e.sem_value_max m d r) where
  known_not_null : (q : Ptr) (s : Event) → at q r.event_cells ≡ some s → (q == null) ≡ false
  known_not_null q s known =
      let ne = (Holds-at events m q r.event_cells is.in_events.holds known).0 in ground arith

  -- In a world that realises a registry, ipc_event_close answers -EINVAL to the handle of an entry of its
  -- own table, however many owners that has, and changes nothing: no entry is ever closed.
  pub ipc_event_close-refused :
      (q : Ptr) (s : Event)
      → at q r.event_cells ≡ some s
      → ipc_event_close e (some (close_param q)) (world m d) ≡ ok invalid (world m d)
  unfolding ipc_event_close
  ipc_event_close-refused q s known =
      ap (λ (c : Cmd ℤ). c (world m d))
        (if_not (q == null) (pure invalid) _ (known_not_null q s known))
      ∙ refused-at events e m d is.in_events q
          (λ id. if id == mutex_id then close_entry events q else pure invalid) s known (λ d'. refl)

  -- In a world that realises a registry, ipc_event_reset answers -EINVAL to the handle of an entry of
  -- its own table, and changes nothing: no event is ever reset.
  pub ipc_event_reset-refused :
      (q : Ptr) (s : Event)
      → at q r.event_cells ≡ some s
      → ipc_event_reset e (some (record { handle = q })) (world m d) ≡ ok invalid (world m d)
  unfolding ipc_event_reset
  ipc_event_reset-refused q s known =
      ap (λ (c : Cmd ℤ). c (world m d))
        (if_not (q == null) (pure invalid) _ (known_not_null q s known))
      ∙ identify-at events e m d is.in_events q
          (λ id. if id == mutex_id then give_event e q else pure invalid) s known

  -- In a world that realises a registry, ipc_event_close_all frees the first entry, the third and so on,
  -- leaves the others in the list and in memory, and answers -EBUSY exactly if a freed one had owners.
  ipc_event_close_all-skipped :
      ipc_event_close_all e (world m d)
      ≡ ok (if in_use events (deleted events r.event_cells) == 0 then pos 0 else busy) (
          world
            (free_all events m (deleted events r.event_cells))
            (record d { event_list = addresses (skipped events r.event_cells) }))
  unfolding ipc_event_close_all
  ipc_event_close_all-skipped =
      close_all-skipped events e m d is.in_events (λ used. if used == 0 then pos 0 else busy)
