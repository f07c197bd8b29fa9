-- ===== src/Driver/Timeout/Deadline.antt =====
-- The deadlines that `ms_to_timespec` computes.
use native.Mathlib.Nat.{mod-eq_of_lt}
use gipcy.Base.{ℕ, ltb, true, ◌+◌, ◌*◌, ◌/◌, ◌^◌, ◌<◌, ◌≤◌, ◌≡◌, ◌%◌, arith}
use gipcy.Driver.Machine.{Env, Timespec}
use gipcy.Driver.Timeout.{giga, ms_to_timespec}

-- The instant that a `timespec` stands for, in nanoseconds.
abbrev pub instant : Timespec → ℕ
instant t = t.sec * giga + t.nsec

-- For a timeout of at most 2147 ms, and while a `time_t` can count two seconds past the clock's time: the
-- deadline is exactly that many milliseconds after the clock's time, but its tv_nsec is the sum of the
-- nanoseconds of both, without a carry, so that it is out of range where they are a second or more.
pub ms_to_timespec-exact :
    (e : Env) (ms : ℕ)
    → ms ≤ 2147
    → e.now.sec + 2 < 2 ^ e.time_bits
    → (instant (ms_to_timespec e ms) ≡ instant e.now + ms * 1_000_000)
      × ((ms_to_timespec e ms).nsec ≡ e.now.nsec + ms % 1000 * 1_000_000)
unfolding ms_to_timespec
ms_to_timespec-exact e ms short fits =
    let small : ms * 1_000_000 / giga % 2 ^ e.time_bits ≡ ms * 1_000_000 / giga =
      mod-eq_of_lt (omega arith) in
    let sum : (e.now.sec + ms * 1_000_000 / giga) % 2 ^ e.time_bits
        ≡ e.now.sec + ms * 1_000_000 / giga =
      mod-eq_of_lt (omega arith) in
    let int : ltb (ms * 1_000_000) (2 ^ 31) ≡ true = ground arith in
    rw (int, small, sum) (omega arith, omega arith)
