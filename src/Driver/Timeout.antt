-- ===== src/Driver/Timeout.antt =====
-- `ms_to_timespec` of qnx/ipcdrv/ipcdrv.cpp. `ms * 1000 * 1000` is an `int` product, and what it is
-- beyond the largest int is a parameter. `nsec2timespec` of the C library splits a count of nanoseconds
-- into seconds and the rest. Seconds are kept in a `time_t`, an unsigned word here.
pub mod Deadline
use gipcy.Base.{ℕ, ◌+◌, ◌*◌, ◌/◌, ◌%◌, ◌^◌, ltb, if◌then◌else◌}
use gipcy.Driver.Machine.{Env, Timespec}

abbrev pub giga : ℕ
giga = 1_000_000_000

-- `uint64_t ns = ms*1000*1000` for `ms` at least 0.
unfoldable pub nanoseconds : Env → ℕ → ℕ
nanoseconds e ms =
    if ltb (ms * 1_000_000) (2 ^ 31) then ms * 1_000_000 else e.overflowed (ms * 1_000_000) % 2 ^ 64

unfoldable pub nsec2timespec : Env → ℕ → Timespec
nsec2timespec e ns = record { sec = ns / giga % 2 ^ e.time_bits; nsec = ns % giga }

-- The deadline `ms` milliseconds after the time of `clock_gettime`.
unfoldable pub ms_to_timespec : Env → ℕ → Timespec
unfolding nanoseconds nsec2timespec
ms_to_timespec e ms =
    let tt = nsec2timespec e (nanoseconds e ms) in
    record { sec = (e.now.sec + tt.sec) % 2 ^ e.time_bits; nsec = e.now.nsec + tt.nsec }
