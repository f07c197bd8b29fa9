-- ===== src/System/Profile/Write/Loops.antt =====
-- The loops of IPC_writePrivateProfileString on files of lines.
use mathlib.Core.List.{append_assoc, append-nil}
use gipcy.Base.{
  ℕ, zero, suc, ◌+◌, ◌<◌, ◌≡◌, refl, ap, ◌∙◌, Bool, true, false, List, [], ◌∷◌, ◌++◌, arith, leb,
  length, length-append,
}
use gipcy.System.Chars.{Text}
use gipcy.System.Profile.{is_section}
use gipcy.System.Profile.Lines.{lines_text, has_newline}
use gipcy.System.Profile.Read.{Outcome, done, ◌>>=◌}
use gipcy.System.Profile.Write.{
  Writing, scan_fgets, fgets, put, chop, opens_app, sets_key, take_header, find_app, take_option,
  find_key,
}

abbrev pub writing : Text → Text → Bool → Writing
writing rest buf ready = record { rest = rest; eof = false; buf = buf; ready = ready }

-- A line and its line feed fit `sLine`.
pub record IsShort (l : Text) : Type 0 where
  pub whole : has_newline l ≡ false
  pub fits : length l < 1023

abbrev pub with_newline : Text → Text
with_newline l = l ++ b'\n' ∷ []

scan_fgets-line :
    (l rest : Text) (n : ℕ)
    → has_newline l ≡ false
    → length l < n
    → scan_fgets n (l ++ b'\n' ∷ rest) ≡ (with_newline l, (rest, false))
unfolding scan_fgets
scan_fgets-line l rest zero whole room = absurd (omega arith)
scan_fgets-line [] rest (suc n) whole room = refl
scan_fgets-line (c ∷ l) rest (suc n) whole room = ground (arith, scan_fgets-line l rest n)

pub fgets-line :
    (l rest buf : Text) (ready : Bool)
    → IsShort l
    → fgets (writing (l ++ b'\n' ∷ rest) buf ready) ≡ (with_newline l, writing rest buf ready)
unfolding fgets
fgets-line l rest buf ready is = rw (scan_fgets-line l rest 1023 is.whole is.fits)

pub chop-with_newline : (l : Text) → chop (with_newline l) ≡ l
unfolding chop
chop-with_newline [] = refl
chop-with_newline (c ∷ []) = refl
chop-with_newline (c ∷ d ∷ l) = ap (◌∷◌ c) (chop-with_newline (d ∷ l))

pub put-fits :
    (cap : ℕ) (s rest buf : Text) (ready : Bool)
    → length buf + length s < cap
    → put cap s (writing rest buf ready) ≡ done (writing rest (buf ++ s) true)
unfolding put
put-fits cap s rest buf ready room =
    let fits : leb cap (length buf + length s) ≡ false = ground arith in rw fits

take_header-line :
    (cap : ℕ) (l app : Text) (go_on : Writing → Outcome (Bool × Writing)) (w : Writing)
    → take_header cap (with_newline l) app go_on w ≡ (
        put cap (with_newline l) w >>= λ w'. elim (opens_app (with_newline l) app) [
          | true ↦ done (true, w')
          | false ↦ go_on w'
        ])
unfolding take_header
take_header-line cap [] app go_on w = refl
take_header-line cap (c ∷ l) app go_on w = refl

-- The line of the section, and any other line.
abbrev pub Header : Text → Text → Type 0
Header app l = IsShort l × (opens_app (with_newline l) app ≡ true)

abbrev pub Each : (Text → Type 0) → List Text → Type 0
Each P [] = Unit {0}
Each P (l ∷ ls) = P l × Each P ls

abbrev pub NoHeader : Text → Text → Type 0
NoHeader app l = IsShort l × (opens_app (with_newline l) app ≡ false)

pub pieces : (buf l t : Text) → (buf ++ with_newline l) ++ t ≡ buf ++ (l ++ b'\n' ∷ t)
pieces buf l t = append_assoc buf (with_newline l) t ∙ ap (◌++◌ buf) (append_assoc l (b'\n' ∷ []) t)

module _ (cap : ℕ) (app : Text) where
  pub find_app-step :
      (n : ℕ) (l rest buf : Text) (ready : Bool)
      → IsShort l
      → length buf + length (with_newline l) < cap
      → find_app (suc n) cap app (writing (l ++ b'\n' ∷ rest) buf ready)
        ≡ elim (opens_app (with_newline l) app) [
          | true ↦ done (true, writing rest (buf ++ with_newline l) true)
          | false ↦ find_app n cap app (writing rest (buf ++ with_newline l) true)
        ]
  unfolding find_app
  find_app-step n l rest buf ready is room = rw (
    fgets-line l rest buf ready is,
    take_header-line cap l app (find_app n cap app) (writing rest buf ready),
    put-fits cap (with_newline l) rest buf ready room,
  )

  pub find_app-found :
      (before : List Text) (header rest : Text) (n : ℕ) (buf : Text) (ready : Bool)
      → Each (NoHeader app) before
      → Header app header
      → length before < n
      → length buf + length (lines_text before (with_newline header)) < cap
      → find_app n cap app (writing (lines_text before (header ++ b'\n' ∷ rest)) buf ready)
        ≡ done (true, writing rest (buf ++ lines_text before (with_newline header)) true)
  find_app-found before header rest zero buf ready others is enough room = absurd (omega arith)
  find_app-found [] header rest (suc n) buf ready others (is, opens) enough room =
      find_app-step n header rest buf ready is room ∙ rw opens
  find_app-found (l ∷ ls) header rest (suc n) buf ready ((is, other), others) opens enough room =
      let t = lines_text ls (with_newline header) in
      let sizes : length buf + (length l + suc (length t)) < cap =
        omega (arith, length-append l (b'\n' ∷ t)) in
      find_app-step n l (lines_text ls (header ++ b'\n' ∷ rest)) buf ready is
        (omega (arith, sizes, length-append l (b'\n' ∷ [])))
      ∙ (rw other (
            find_app-found ls header rest n (buf ++ with_newline l) true others opens (omega arith)
              (omega
                (arith, sizes, length-append buf (with_newline l), length-append l (b'\n' ∷ []))))
          ∙ ap (λ x. done (true, writing rest x true)) (pieces buf l t))

-- A line that the search for the key copies.
abbrev pub Copied : Text → Text → Type 0
Copied key l = IsShort l × (sets_key (with_newline l) key ≡ false) × (is_section l ≡ false)

pub take_option-copied :
    (cap : ℕ) (l key : Text) (go_on : Writing → Outcome (Text × Writing)) (w : Writing)
    → sets_key (with_newline l) key ≡ false
    → is_section l ≡ false
    → take_option cap (with_newline l) key go_on w ≡ (put cap (with_newline l) w >>= go_on)
unfolding take_option chop
take_option-copied cap [] key go_on w other plain = rw (other, take_option) (rw plain)
take_option-copied cap (c ∷ l) key go_on w other plain =
    rw (other, take_option) (rw (chop-with_newline (c ∷ l)) (rw plain))

take_option-found :
    (cap : ℕ) (l key : Text) (go_on : Writing → Outcome (Text × Writing)) (w : Writing)
    → sets_key (with_newline l) key ≡ true
    → take_option cap (with_newline l) key go_on w ≡ done ([], w)
unfolding take_option
take_option-found cap [] key go_on w same = rw (same, take_option)
take_option-found cap (c ∷ l) key go_on w same = rw (same, take_option)

module _ (cap : ℕ) (key : Text) where
  pub find_key-found :
      (between : List Text) (line rest : Text) (n : ℕ) (buf : Text)
      → Each (Copied key) between
      → IsShort line
      → sets_key (with_newline line) key ≡ true
      → length between < n
      → length buf + length (lines_text between []) < cap
      → find_key n cap key (writing (lines_text between (line ++ b'\n' ∷ rest)) buf true)
        ≡ done ([], writing rest (buf ++ lines_text between []) true)
  unfolding find_key
  find_key-found between line rest zero buf copied is same enough room = absurd (omega arith)
  find_key-found [] line rest (suc n) buf copied is same enough room = rw (
    fgets-line line rest buf true is,
    take_option-found cap line key (find_key n cap key) (writing rest buf true) same,
    append-nil buf,
  )
  find_key-found (l ∷ ls) line rest (suc n) buf ((is_l, other, plain), copied) is same enough room =
      let t = lines_text ls [] in
      let below = lines_text ls (line ++ b'\n' ∷ rest) in
      let sizes : length buf + (length l + suc (length t)) < cap =
        omega (arith, length-append l (b'\n' ∷ t)) in
      rw
        (
          fgets-line l below buf true is_l,
          take_option-copied cap l key (find_key n cap key) (writing below buf true) other plain,
          put-fits cap (with_newline l) below buf true
              (omega (arith, sizes, length-append l (b'\n' ∷ []))),
        )
        (find_key-found ls line rest n (buf ++ with_newline l) copied is same (omega arith)
            (omega (arith, sizes, length-append buf (with_newline l), length-append l (b'\n' ∷ [])))
          ∙ ap (λ x. done ([], writing rest x true)) (pieces buf l t))
