-- ===== src/System/Profile/Read.antt =====
-- IPC_getPrivateProfileString of linux/libsrc/sysipc.cpp, over a model of the `ifstream` that it reads.
-- A file is its bytes, or none if it cannot be opened; a text file has no zero byte.
use gipcy.Base.{
  ℕ, zero, suc, ◌+◌, ◌-◌, ℤ, pos, neg, negsuc, Bool, true, false, ◌||◌, [], ◌∷◌, ◌++◌, Option, none,
  some, ltb, ◌==◌, if◌then◌else◌, length, take,
}
use gipcy.System.Chars.{Text}
use gipcy.System.Profile.{
  path_max, Buffer, put_line, find_section, is_section, is_option_name, Found, find_option,
}

pub record Stream : Type 0 where
  pub rest : Text
  pub eof : Bool
  pub fail : Bool

-- Why `getline` stopped: the end of the file, a line feed, or an array that is full.
pub data Ending : Type 0 where
  at_end at_newline full : Ending

abbrev push {ℓ} : {A : Type ℓ} → ℕ → Text × A → Text × A
push c (l, r) = (c ∷ l, r)

-- At most so many bytes and the line feed: the line, what is left, and why.
unfoldable pub scan_line : ℕ → Text → Text × (Text × Ending)
scan_line n [] = ([], ([], at_end))
scan_line zero (c ∷ s) = if c == b'\n' then ([], (s, at_newline)) else ([], (c ∷ s, full))
scan_line (suc n) (c ∷ s) =
    let more = push c (scan_line n s) in if c == b'\n' then ([], (s, at_newline)) else more

abbrev is_empty : Text → Bool
is_empty [] = true
is_empty (c ∷ s) = false

abbrev set_flags : Text × (Text × Ending) → Text × Stream
set_flags (l, (r, at_end)) = (l, record { rest = r; eof = true; fail = is_empty l })
set_flags (l, (r, at_newline)) = (l, record { rest = r; eof = false; fail = false })
set_flags (l, (r, full)) = (l, record { rest = r; eof = false; fail = true })

-- `ifs.getline(str, sizeof(str), '\n')`; on a stream that is not good it stores an empty line.
unfoldable pub get_line : Stream → Text × Stream
unfolding scan_line
get_line f =
    if f.eof || f.fail
    then ([], record f { fail = true })
    else set_flags (scan_line (path_max - 1) f.rest)

-- How a call ends: with a result, by undefined behaviour, or not at all within the fuel.
pub data Outcome (A : Type 0) : Type 0 where
  done : A → Outcome A
  fault : Outcome A
  forever : Outcome A

infixl 5 ◌>>=◌
abbrev pub ◌>>=◌ : {A B : Type 0} → Outcome A → (A → Outcome B) → Outcome B
done a >>= f = f a
fault >>= f = fault
forever >>= f = forever

-- The locals: `out` is what lies before `lpReturnedString` when that has advanced, and `here` the text
-- at it.
pub record Reading : Type 0 where
  pub stream : Stream
  pub str : Buffer
  pub used : ℕ
  pub out : Text
  pub here : Text
  pub set_default : Bool
  pub found : Bool

-- The line that `getline` reads, and the locals after it.
abbrev pub next_line : Reading → Text × Reading
next_line r =
    let (line, stream) = get_line r.stream in
    (line, record r { stream = stream; str = put_line line r.str })

-- What the inner loop does with the result of FindOption: it breaks, or goes on.
unfoldable pub after_option : Option Found → (Reading → Outcome Reading) → Reading → Outcome Reading
after_option none go_on r = fault
after_option (some f) go_on r =
    let r' = record r { here = f.buffer; set_default = f.set_default } in
    elim f.code [
      | pos zero ↦ done (record r' { found = true })
      | _ ↦ go_on (record r' { found = false })
    ]

-- The inner loop when a key is given.
unfoldable pub read_option : ℕ → Text → ℕ → Reading → Outcome Reading
read_option zero key size r = forever
read_option (suc n) key size r = elim r.stream.eof [
  | true ↦ done r
  | false ↦
      let (line, r') = next_line r in
      after_option (find_option line key r'.here size) (read_option n key size) r'
]

-- A name and a zero at `lpReturnedString`, which advances; the loop breaks if they exceed `nSize`.
unfoldable pub add_name : ℕ → Text → (Reading → Outcome Reading) → Reading → Outcome Reading
add_name size name go_on r =
    let used = r.used + (length name + 1) in
    elim (ltb size (used + 1)) [
      | true ↦ done (record r { used = used })
      | false ↦ go_on (record r { used = used; out = r.out ++ name ++ 0 ∷ [] })
    ]

-- The inner loop when the key is NULL: the names of the section.
unfoldable pub read_names : ℕ → ℕ → Reading → Outcome Reading
read_names zero size r = forever
read_names (suc n) size r = elim r.stream.eof [
  | true ↦ done r
  | false ↦
      let (line, r') = next_line r in
      elim (is_section line) [
        | true ↦ done r'
        | false ↦ elim (is_option_name line) [
          | none ↦ read_names n size r'
          | some name ↦
              add_name size name (read_names n size) (record r' { str = put_line name r'.str })
        ]
      ]
]

-- The text of a section line without its brackets.
abbrev pub inside : Text → Text
inside [] = []
inside (c ∷ s) = take (length s - 1) s

-- The inner loop.
unfoldable pub read_section : ℕ → Option Text → ℕ → Reading → Outcome Reading
read_section n none size r = read_names n size r
read_section n (some key) size r = read_option n key size r

-- What the outer loop does with the result of FindSection.
unfoldable pub after_section :
    Option ℤ → (Reading → Outcome Reading) → (Reading → Outcome Reading) → Reading → Outcome Reading
after_section none inner go_on r = fault
after_section (some (pos zero)) inner go_on r = inner r >>= go_on
after_section (some (pos (suc c))) inner go_on r = go_on r
after_section (some (negsuc c)) inner go_on r = go_on r

-- The outer loop.
unfoldable pub read_profile : ℕ → Option Text → Option Text → ℕ → Reading → Outcome Reading
read_profile zero app key size r = forever
read_profile (suc n) app key size r = elim (r.stream.eof || r.found) [
  | true ↦ done r
  | false ↦
      let (line, r') = next_line r in
      elim app [
        | none ↦ elim (is_section line) [
          | false ↦ read_profile n none key size r'
          | true ↦ add_name size (inside line) (read_profile n none key size) r'
        ]
        | some section ↦
            after_section (find_section line r'.str section) (read_section n key size)
              (read_profile n (some section) key size) r'
      ]
]

-- IPC_BAD_INI_FILE, 0xC0000104 as an int.
abbrev pub bad_ini_file : ℤ
bad_ini_file = neg 0x3ffffefc

abbrev pub or_default : Bool → Option Text → Text → Text
or_default true (some t) here = t
or_default true none here = here
or_default false d here = here

abbrev pub ended : Option Text → Option Text → Text → Text
ended (some a) (some k) here = here
ended _ _ here = []

abbrev pub as_int : Bool → ℤ
as_int true = pos 1
as_int false = pos 0

-- The result, and the bytes that the caller's buffer then starts with. `garbage` is the array `str`
-- before the first line, and `old` the text in the caller's buffer.
unfoldable pub ipc_get_private_profile_string :
    ℕ
    → Buffer
    → Option Text
    → Option Text
    → Option Text
    → Text
    → ℕ
    → Option Text
    → Outcome (ℤ × Text)
ipc_get_private_profile_string fuel garbage app key default old size none = done (bad_ini_file, old)
ipc_get_private_profile_string fuel garbage app key default old size (some file) =
    read_profile fuel app key size (record {
      stream = record { rest = file; eof = false; fail = false };
      str = garbage;
      used = 0;
      out = [];
      here = old;
      set_default = true;
      found = false;
    })
    >>= λ r. done (as_int r.found, r.out ++ ended app key (or_default r.set_default default r.here))
