-- ===== src/Driver/Table/Closing.antt =====
-- Closing an entry of a table, with the lock as the operations leave it.
use gipcy.Base.{ℕ, ◌-◌, ◌≤◌, ◌<◌, ◌≡◌, refl, sym, ap, ◌∙◌, inr, ℤ, pos, List, none, some, arith}
use gipcy.Driver.Ioctl.{Ptr, busy}
use gipcy.Driver.Objects.{Driver}
use gipcy.Driver.Machine.{Env, Memory, world, Run, ok, pure, ◌>>=◌, write, sem_post}
use gipcy.Driver.Struct.{Struct, post_lock}
use gipcy.Driver.Table.{close_entry}
use gipcy.Driver.Table.Cells.{
  addresses, at, replace, remove, addresses-replace, Holds-at, Holds-replace, Holds-remove,
}
use gipcy.Driver.Table.Sound.{Sound-at, Sound-replace, Sound-remove}
use gipcy.Driver.Table.Steps.{post_lock-ok, close_entry-last, close_entry-busy}
use gipcy.Driver.Table.Update.{InTable, Update, with_owners-IsEntry}

module _ {A : Type 0} (S : Struct A) (e : Env) (m : Memory) (d : Driver) {cs : List (Ptr × A)}
    (t : InTable S e.sem_value_max m d cs) where
  -- Closing an address of the table: its last owner takes the entry away, any other one leaves it
  -- with an owner less. The lock stands at `k` before and is posted afterwards.
  module _ (q : Ptr) (k : ℕ) (posted : 0 < sem_post e k)
      (range : sem_post e k ≤ e.sem_value_max) where
    abbrev close_then_post : Run ℤ
    close_then_post =
        (close_entry S q >>= λ error. post_lock S e >>= λ _. pure error) (world m (S.with_lock d k))

    at_k : S.list (S.with_lock d k) ≡ addresses cs
    at_k = rw (S.list-with_lock d) t.listed

    pub close-last :
        (a : A)
        → at q cs ≡ some a
        → S.owner_count a ≡ 1
        → let d' = S.with_lock (S.with_list d (addresses (remove q cs))) (sem_post e k) in
          (close_then_post ≡ ok (pos 0) (world (write m q none) d'))
          × Update S e.sem_value_max m d (world (write m q none) d') (remove q cs)
    close-last a e_at one =
        let ps = addresses (remove q cs) in
        let d' = S.with_lock (S.with_list d ps) (sem_post e k) in
        let mid = S.with_list (S.with_lock d k) ps in
        let posts : sem_post e (S.lock mid) ≡ sem_post e k =
          ap (sem_post e) (S.lock-with_list _ ps ∙ S.lock-with_lock d k) in
        (
          rw (
            close_entry-last S m (S.with_lock d k) q cs at_k t.holds a e_at one,
            post_lock-ok S (write m q none) mid e,
            posts,
            S.with_lock-with_list d k (sem_post e k) ps,
          ),
          record {
            place = q;
            content = none;
            ps = ps;
            n = sem_post e k;
            after = d';
            owned = inr (a, (Holds-at S m q cs t.holds e_at).1);
            same = refl;
            result = refl;
            table = record {
              listed = S.list-with_lock _ _ ∙ S.list-with_list d ps;
              holds = Holds-remove S m q cs t.holds;
              sound = Sound-remove S q cs t.sound;
              unlocked = rw (S.lock-with_lock (S.with_list d ps) (sem_post e k)) posted;
              in_range = rw (S.lock-with_lock (S.with_list d ps) (sem_post e k)) range;
            };
          },
        )

    pub close-busy :
        (a : A)
        → at q cs ≡ some a
        → 1 < S.owner_count a
        → let b = S.with_owners a (S.owner_count a - 1) in
          let d' = S.with_lock d (sem_post e k) in
          (close_then_post ≡ ok busy (world (write m q (some (S.inject b))) d'))
          × Update S e.sem_value_max m d (world (write m q (some (S.inject b))) d') (replace q b cs)
    close-busy a e_at more =
        let d' = S.with_lock d (sem_post e k) in
        let b = S.with_owners a (S.owner_count a - 1) in
        let is = Sound-at S q cs t.sound e_at in
        (
          rw (
            close_entry-busy S m (S.with_lock d k) q cs at_k t.holds a e_at more is.bounded,
            post_lock-ok S (write m q (some (S.inject b))) (S.with_lock d k) e,
            S.lock-with_lock d k,
            S.with_lock-with_lock d k (sem_post e k),
          ),
          record {
            place = q;
            content = some (S.inject b);
            ps = S.list d;
            n = sem_post e k;
            after = d';
            owned = inr (a, (Holds-at S m q cs t.holds e_at).1);
            same = rw (S.with_list-list d);
            result = refl;
            table = record {
              listed = S.list-with_lock _ _ ∙ t.listed ∙ sym (addresses-replace q b cs);
              holds = Holds-replace S m q b cs t.holds;
              sound = Sound-replace S q b cs t.sound e_at (S.name-with_owners a _) (
                  with_owners-IsEntry S e m d t q a _ is (omega arith) (omega (arith, is.bounded)));
              unlocked = rw (S.lock-with_lock d (sem_post e k)) posted;
              in_range = rw (S.lock-with_lock d (sem_post e k)) range;
            };
          },
        )
