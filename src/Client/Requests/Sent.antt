-- ===== src/Client/Requests/Sent.antt =====
-- What the client sees of one run of the driver's handler.
use gipcy.Base.{
  ◌≡◌, refl, sym, ◌∙◌, inl, inr, ℤ, pos, is_neg, Bool, true, false, Bool-cases, Option, none, some,
  arith, ◌==◌, if◌then◌else◌,
}
use gipcy.Driver.Ioctl.{Ptr, null, invalid, Request}
use gipcy.Driver.Machine.{Env, World, Run, ok, fault, blocked, Returns, and_then, pure}
use gipcy.Driver.Devctl.{Response, error, reply, opened, io_devctl}
use gipcy.Client.Device.{is_open, ipc_driver_handle-is_open}
use gipcy.Client.Requests.{Link, handle_in, send, open_object, call_object}

-- The requests are left to the handler, and `devctl` succeeds on a reply, as the C library says of
-- both functions.
pub record Delivers (l : Link) : Type 0 where
  pub goes_on : (request : Request) → l.default request ≡ none
  pub succeeds : (h : Option Ptr) → is_neg (l.devctl (reply h)) ≡ false

-- What the C library says of `devctl`: it returns EOK, which is 0, or an error number, which is positive,
-- so never a negative number.
abbrev pub NeverNegative : Link → Type 0
NeverNegative l = (response : Response) → is_neg (l.devctl response) ≡ false

module _ (l : Link) (e : Env) (fd : ℤ) (request : Request) (w : World) where
  module _ (opens : is_open fd ≡ true) (good : Delivers l) where
    pub call_object-sent :
        (failed : ℤ → ℤ) (response : Response) (w' : World)
        → io_devctl e none request w ≡ ok response w'
        → call_object l e fd failed request w
          ≡ ok (if is_neg (l.devctl response) then failed (l.devctl response) else pos 0) w'
    unfolding call_object send
    call_object-sent failed response w' run =
        rw (ipc_driver_handle-is_open fd opens, good.goes_on request, run)

either : (b : Bool) (p : Ptr) → (if b then p else p) ≡ p
either true p = refl
either false p = refl

-- What a client gets for the handle that an operation of the driver answers with.
handle_in-opened :
    (l : Link) (h : Ptr)
    → Delivers l
    → (if is_neg (l.devctl (opened h)) then null else handle_in (opened h)) ≡ h
unfolding opened
handle_in-opened l h good = elim (Bool-cases (h == null)) [
  | inl z ↦
      let e : h ≡ null = ground arith in
      rw z (either (is_neg (l.devctl (error invalid))) null ∙ sym e)
  | inr z ↦ rw (z, good.succeeds (some h))
]

opened-run :
    (l : Link) (P : Ptr → World → Type 0) (run : Run Ptr)
    → Delivers l
    → Returns P run
    → Returns P (
        and_then
          (and_then (and_then run (λ h. pure (opened h))) (λ r. pure (l.devctl r, handle_in r)))
          (λ (res, handle). pure (if is_neg res then null else handle)))
opened-run l P (ok h w) good r = rw (handle_in-opened l h good) r
opened-run l P fault good r = r
opened-run l P blocked good r = r

-- A call that opens returns what the driver's operation returns.
pub open_object-Returns :
    (l : Link) (e : Env) (fd : ℤ) (request : Request) (w : World) (P : Ptr → World → Type 0)
    (run : Run Ptr)
    → is_open fd ≡ true
    → Delivers l
    → io_devctl e none request w ≡ and_then run (λ h. pure (opened h))
    → Returns P run
    → Returns P (open_object l e fd request w)
unfolding open_object send
open_object-Returns l e fd request w P run opens good same r =
    rw (ipc_driver_handle-is_open fd opens, good.goes_on request, same) (opened-run l P run good r)
