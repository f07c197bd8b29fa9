-- ===== src/System/Profile/Write.antt =====
-- IPC_writePrivateProfileString of linux/libsrc/sysipc.cpp. A file is its bytes, none of which is zero,
-- and shorter than an int can say.
pub mod Loops
pub mod Copies
pub mod Replaces
pub mod RoundTrip
pub mod Ends
use gipcy.Base.{
  ℕ, zero, suc, ◌+◌, ◌-◌, ℤ, pos, neg, Bool, true, false, ◌&&◌, List, [], ◌∷◌, ◌++◌, Option, none,
  some, leb, ◌==◌, if◌then◌else◌, length, same_text,
}
use gipcy.System.Chars.{Text}
use gipcy.System.Profile.{is_section, is_option_name}
use gipcy.System.Profile.Read.{Outcome, done, fault, forever, ◌>>=◌, inside}

-- The locals: what is left of the file, `feof`, the bytes from `pBuf` to `pCur`, whose number is
-- `nSize`, and whether `pCur` points to a zero that a strcpy has left.
pub record Writing : Type 0 where
  pub rest : Text
  pub eof : Bool
  pub buf : Text
  pub ready : Bool

-- At most so many bytes, up to a line feed: the line, what is left, and whether the end was met.
unfoldable pub scan_fgets : ℕ → Text → Text × (Text × Bool)
scan_fgets zero s = ([], (s, false))
scan_fgets (suc n) [] = ([], ([], true))
scan_fgets (suc n) (c ∷ s) =
    let (line, after) = scan_fgets n s in
    if c == b'\n' then (c ∷ [], (s, false)) else (c ∷ line, after)

-- `strcpy(sLine, ""); fgets(sLine, 1024, pFile);`.
unfoldable pub fgets : Writing → Text × Writing
unfolding scan_fgets
fgets w =
    let (line, (rest, eof)) = scan_fgets 1023 w.rest in (line, record w { rest = rest; eof = eof })

-- `strcpy(pCur, s)` and the steps of `pCur` and `nSize`; `pBuf` has `cap` bytes.
unfoldable pub put : ℕ → Text → Writing → Outcome Writing
put cap s w =
    if leb cap (length w.buf + length s)
    then fault
    else done (record w { buf = w.buf ++ s; ready = true })

-- The same with `strcat`, which looks for a zero first.
unfoldable pub cat : ℕ → Text → Writing → Outcome Writing
unfolding put
cat cap s w = if w.ready then put cap s w else fault

-- A text built in `sLine[1024]`.
abbrev pub lay : Text → Outcome Text
lay s = if leb 1024 (length s) then fault else done s

-- `s[strlen(s) - 1] = '\0'` on a text that is not empty.
unfoldable pub chop : Text → Text
chop [] = []
chop (c ∷ []) = []
chop (c ∷ d ∷ s) = c ∷ chop (d ∷ s)

-- Whether the line is the header of the section. `strcpy(sLine, sLine + 1)` is taken as a move.
unfoldable pub opens_app : Text → Text → Bool
unfolding chop is_section
opens_app line app = is_section (chop line) && same_text (inside (chop line)) app

-- Whether the line has the key before its `=`.
unfoldable pub sets_key : Text → Text → Bool
unfolding is_option_name
sets_key line key = elim (is_option_name line) [ none ↦ false | some name ↦ same_text name key ]

-- The body of the loop that looks for the section, behind fgets.
unfoldable pub take_header :
    ℕ → Text → Text → (Writing → Outcome (Bool × Writing)) → Writing → Outcome (Bool × Writing)
take_header cap [] app go_on w = go_on w
take_header cap (c ∷ s) app go_on w = put cap (c ∷ s) w >>= λ w'. elim (opens_app (c ∷ s) app) [
  | true ↦ done (true, w')
  | false ↦ go_on w'
]

unfoldable pub find_app : ℕ → ℕ → Text → Writing → Outcome (Bool × Writing)
find_app zero cap app w = forever
find_app (suc n) cap app w = elim w.eof [
  | true ↦ done (false, w)
  | false ↦ let (line, w') = fgets w in take_header cap line app (find_app n cap app) w'
]

-- The body of the loop that looks for the key, with `sNextSection`: for an empty line, at the end of
-- the file, the byte before `sNextSection` is written.
unfoldable pub take_option :
    ℕ → Text → Text → (Writing → Outcome (Text × Writing)) → Writing → Outcome (Text × Writing)
take_option cap [] key go_on w = if sets_key [] key then done ([], w) else fault
take_option cap (c ∷ s) key go_on w = elim (sets_key (c ∷ s) key) [
  | true ↦ done ([], w)
  | false ↦ elim (is_section (chop (c ∷ s))) [
    | true ↦ done (c ∷ s, w)
    | false ↦ put cap (c ∷ s) w >>= go_on
  ]
]

unfoldable pub find_key : ℕ → ℕ → Text → Writing → Outcome (Text × Writing)
find_key zero cap key w = forever
find_key (suc n) cap key w = elim w.eof [
  | true ↦ done ([], w)
  | false ↦ let (line, w') = fgets w in take_option cap line key (find_key n cap key) w'
]

-- The loop that copies the remaining lines.
unfoldable pub copy_rest : ℕ → ℕ → Writing → Outcome Writing
copy_rest zero cap w = forever
copy_rest (suc n) cap w = elim w.eof [
  | true ↦ done w
  | false ↦ let (line, w') = fgets w in put cap line w' >>= copy_rest n cap
]

-- The part from `if(isFindSection)` to the added line.
unfoldable pub add_option : ℕ → ℕ → Text → Text → Text → Bool × Writing → Outcome Writing
add_option fuel cap app key value (true, w) = find_key fuel cap key w >>= λ (next, w').
    lay (key ++ b'=' ∷ (value ++ b'\n' ∷ next)) >>= λ line. cat cap line w'
add_option fuel cap app key value (false, w) = lay (b'[' ∷ (app ++ b']' ∷ b'\n' ∷ [])) >>= λ header.
    cat cap header w >>= λ w'. lay (key ++ b'=' ∷ (value ++ b'\n' ∷ [])) >>= λ line. cat cap line w'

-- The result, and the file afterwards; `writable` says whether it can be opened for writing.
unfoldable pub ipc_write_private_profile_string :
    ℕ → Text → Text → Text → Bool → Option Text → Outcome (ℤ × Option Text)
ipc_write_private_profile_string fuel app key value writable none = done (neg 1, none)
ipc_write_private_profile_string fuel app key value writable (some file) =
    let cap = length file + 1024 in
    find_app fuel cap app (record { rest = file; eof = false; buf = []; ready = false })
    >>= λ found. add_option fuel cap app key value found >>= λ w. copy_rest fuel cap w >>= λ w'.
        done (if writable then (pos 0, some w'.buf) else (neg 1, some file))
