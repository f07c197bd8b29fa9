-- ===== src/Client/Device.antt =====
-- The device descriptor of qnx/insys/qnxipc.cpp, `static int ipc_driver_fd`, as state that is passed
-- on. The result of the system's `open` is a parameter.
use gipcy.Base.{◌≡◌, ℤ, pos, negsuc, neg, is_neg, Bool, not, true, false, arith, ltb, if◌then◌else◌}

-- Before any call.
abbrev pub unopened : ℤ
unopened = neg 1

-- `ipc_driver_fd > 0`.
abbrev pub is_open : ℤ → Bool
is_open (pos n) = ltb 0 n
is_open (negsuc n) = false

-- The result, and the descriptor afterwards. `opens` is what `open` answers.
unfoldable pub open_ipc_driver : ℤ → ℤ → ℤ × ℤ
open_ipc_driver opens fd = if is_open fd then (fd, fd) else (opens, opens)

unfoldable pub ipc_driver_handle : ℤ → ℤ
ipc_driver_handle fd = if is_open fd then fd else neg 1

unfoldable pub close_ipc_driver : ℤ → ℤ × ℤ
close_ipc_driver fd = if is_open fd then (pos 0, neg 1) else (pos 0, fd)

unfoldable pub ipc_init : ℤ → ℤ → ℤ × ℤ
unfolding open_ipc_driver
ipc_init opens fd = open_ipc_driver opens fd

unfoldable pub ipc_cleanup : ℤ → ℤ × ℤ
unfolding close_ipc_driver
ipc_cleanup fd = close_ipc_driver fd

-- The calls find the device if the descriptor is open.
pub ipc_driver_handle-is_open : (fd : ℤ) → is_open fd ≡ true → is_neg (ipc_driver_handle fd) ≡ false
unfolding ipc_driver_handle
ipc_driver_handle-is_open (pos n) h = ground arith
ipc_driver_handle-is_open (negsuc n) h = cc

-- A cleanup closes the device, whatever was opened before, and a second IPC_init opens it again
-- exactly if the system's `open` gives a positive descriptor: with descriptor 0 it stays unusable.
pub ipc_cleanup-init :
    (opens fd : ℤ)
    → is_open fd ≡ true
    → ((ipc_cleanup fd).1 ≡ neg 1)
      × (ipc_init opens (ipc_cleanup fd).1 ≡ (opens, opens))
      × (is_neg (ipc_driver_handle (ipc_init opens (ipc_cleanup fd).1).1) ≡ not (is_open opens))
unfolding ipc_cleanup ipc_init ipc_driver_handle
ipc_cleanup-init (pos n) (pos k) h = ground arith
ipc_cleanup-init (negsuc n) (pos k) h = ground arith
ipc_cleanup-init opens (negsuc k) h = cc
