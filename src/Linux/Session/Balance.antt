-- ===== src/Linux/Session/Balance.antt =====
-- Openings and closings over a whole session.
use mathlib.Core.Path.{subst}
use gipcy.Base.{ℕ, ◌+◌, ◌≡◌, refl, arith}
use gipcy.Driver.Ioctl.{Name}
use gipcy.Linux.Ioctl.{Request}
use gipcy.Linux.Objects.{Driver}
use gipcy.Linux.Kernel.{Kernel, done, Answers}
use gipcy.Linux.Rw.{Answer}
use gipcy.Linux.Module.{ipc_device_ioctl}
use gipcy.Linux.Safety.{DriverSound, Part, owners_of, Fair, lost, gained}
use gipcy.Linux.Safety.Requests.{Moves}
use gipcy.Linux.Safety.Requests.Served.{ipc_device_ioctl-Moves}
use gipcy.Linux.Session.{Reached, begin, asked}

-- What a request that was answered has done.
pub served :
    (e : Kernel) (r : Request) (d d' : Driver) (x : Answer)
    → DriverSound d
    → Fair e d r
    → ipc_device_ioctl e r d ≡ done (x, d')
    → Moves d (lost d r) (gained e d r) d'
served e r d d' x s f run =
    subst (Answers (λ (y : Answer × Driver). Moves d (lost d r) (gained e d r) y.1)) run
      (ipc_device_ioctl-Moves e d r s f)

-- From a sound driver, whatever fair requests programs send to it, in any order: the driver stays
-- sound, and each name of each table has the owners that it had at the start and those that the requests
-- gave it, less those that they took.
pub Reached-owners :
    (start : Driver) {d : Driver} {took gave : Part → Name → ℕ}
    → DriverSound start
    → Reached start d took gave
    → DriverSound d
      × ((k : Part) (n : Name) → owners_of k n d + took k n ≡ owners_of k n start + gave k n)
Reached-owners start s begin = (s, λ k n. refl)
Reached-owners start s (asked e r {d} {d'} {took} {gave} x before fair run) =
    let (sound, counts) = Reached-owners start s before in
    let moved = served e r d d' x sound fair run in
    (moved.sound, λ k n. omega (arith, counts k n, moved.counts k n))
