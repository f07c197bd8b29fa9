-- ===== src/System/Profile.antt =====
-- The tests on one line of an INI file: FindSection, IsSection, IsOptionName and FindOption of
-- linux/libsrc/sysipc.cpp. `none` is undefined behaviour: an access outside an array, or through NULL.
pub mod Read
pub mod Options
pub mod Sections
pub mod Lines
pub mod Finds
pub mod Passing
pub mod Reads
pub mod Ends
pub mod Hangs
pub mod Write
use gipcy.Base.{
  ℕ, zero, suc, ◌+◌, ◌-◌, ◌%◌, ◌^◌, ℤ, pos, neg, Bool, true, false, ◌&&◌, ◌||◌, List, [], ◌∷◌, ◌++◌,
  Option, none, some, ltb, leb, ◌==◌, if◌then◌else◌, length, get_or, drop,
}
use gipcy.System.Chars.{Text, ipc_strlwr, strstr, cut_at}

abbrev pub path_max : ℕ
path_max = 4096

-- The array `str[PATH_MAX]`, which keeps what earlier and longer lines left behind the zero.
abbrev pub Buffer : Type 0
Buffer = ℕ → ℕ

unfoldable pub put_line : Text → Buffer → Buffer
put_line [] b zero = 0
put_line [] b (suc k) = b (suc k)
put_line (c ∷ s) b zero = c
put_line (c ∷ s) b (suc k) = put_line s (λ j. b (suc j)) k

-- The string that starts at index `k`, looked for in so many bytes.
unfoldable pub text_at : ℕ → Buffer → ℕ → Option Text
text_at zero b k = none
text_at (suc n) b k = elim (b k == 0) [
  | true ↦ some []
  | false ↦ elim (text_at n b (k + 1)) [ none ↦ none | some s ↦ some (b k ∷ s) ]
]

abbrev is_some {ℓ} : {A : Type ℓ} → Option A → Bool
is_some none = false
is_some (some a) = true

-- `strstr(name, section_tmp) && (name[tmp_len] == ']')`, both in lower case; `name` is zero behind
-- its text.
unfoldable pub is_named : Text → Text → Bool
is_named name section = is_some (strstr name section) && get_or name (length section) 0 == b']'

-- From the `[` on: the name behind it is copied from index `k`, and `section` into 1024 bytes.
unfoldable pub section_here : Buffer → ℕ → Text → Option ℤ
unfolding text_at is_named
section_here b k section = elim (text_at (path_max - k) b k) [
  | none ↦ none
  | some name ↦
      if leb 1024 (length section)
      then none
      else some (if is_named (ipc_strlwr name) (ipc_strlwr section) then pos 0 else neg 3)
]

-- The loop of FindSection from `i` up to `limit`. Both `psubstr = &src[i]` and `psubstr[i]` count `i`.
unfoldable pub find_section_loop : ℕ → ℕ → ℕ → Buffer → Text → Option ℤ
unfolding section_here
find_section_loop zero i limit src section = none
find_section_loop (suc n) i limit src section =
    let c = src (i + i) in
    let rest = find_section_loop n (i + 1) limit src section in
    if ltb i limit
    then (if leb path_max (i + i)
        then none
        else if c == b';'
        then some (neg 1)
        else if c == 0
        then some (neg 2)
        else if c == b'['
        then section_here src (i + i + 1) section
        else rest)
    else some (neg 4)

-- `strlen(src) - key_size` is a size_t. A line is at most as long as the array, so the loop leaves
-- that within so many rounds.
unfoldable pub find_section : Text → Buffer → Text → Option ℤ
unfolding find_section_loop
find_section line src section =
    find_section_loop path_max 0 ((length line + 2 ^ 64 - length section) % 2 ^ 64) src section

abbrev last_or : Text → ℕ → ℕ
last_or [] d = d
last_or (c ∷ s) d = last_or s c

unfoldable pub is_section : Text → Bool
is_section [] = false
is_section (c ∷ s) = c == b'[' && last_or s c == b']'

-- Whether there is a `=`, and the text cut off before it.
unfoldable pub is_option_name : Text → Option Text
is_option_name src = elim (strstr src (b'=' ∷ [])) [
  | none ↦ none
  | some _ ↦ some (cut_at src (b'=' ∷ []))
]

unfoldable pub skip_blanks : Text → Text
skip_blanks [] = []
skip_blanks (c ∷ s) = let later = skip_blanks s in if c == b' ' || c == b'\t' then later else c ∷ s

-- The six cuts by `aSymb`.
unfoldable pub cut_value : Text → Text
unfolding cut_at
cut_value val =
    cut_at
      (cut_at
        (cut_at (cut_at (cut_at (cut_at val (b'\n' ∷ [])) (b'\r' ∷ [])) (b'\t' ∷ [])) (b';' ∷ []))
        (b'#' ∷ []))
      (b'/' ∷ b'/' ∷ [])

-- The loop that drops line ends from `Buffer`: it reads `Buffer[-1]` of an empty text.
unfoldable pub strip_line_end : Text → Option Text
strip_line_end [] = none
strip_line_end (c ∷ s) = elim (strip_line_end s) [
  | some t ↦ some (c ∷ t)
  | none ↦ if c == b'\r' || c == b'\n' then none else some (c ∷ [])
]

-- The result of FindOption, `*set_default` and the text in `Buffer`.
pub record Found : Type 0 where
  pub code : ℤ
  pub set_default : Bool
  pub buffer : Text

abbrev pub not_found : ℕ → Text → Found
not_found n buffer = record { code = neg n; set_default = true; buffer = buffer }

-- From `strstr(src, "=")` on.
unfoldable pub take_value : Text → Text → ℕ → Option Found
unfolding skip_blanks cut_value strip_line_end
take_value src buffer size = elim (strstr src (b'=' ∷ [])) [
  | none ↦ none
  | some here ↦
      let val = cut_value (skip_blanks (drop 1 here)) in
      if leb (length val + 1) size
      then (elim (strip_line_end val) [
        | none ↦ none
        | some text ↦ some (record { code = pos 0; set_default = false; buffer = text })
      ])
      else some (not_found 3 buffer)
]

-- `strstr(name, option_tmp)` and the byte of `name` at the length of the option.
unfoldable pub is_option : Text → Text → Bool
is_option name option =
    let next = get_or name (length option) 0 in
    is_some (strstr name option) && (next == b' ' || next == b'=' || next == b'\t')

-- The body of the loop, which returns in its first round; the loop is left at once exactly if the two
-- lengths agree.
unfoldable pub find_option : Text → Text → Text → ℕ → Option Found
unfolding take_value is_option
find_option [] option buffer size =
    some (if length option == 0 then not_found 5 buffer else not_found 2 buffer)
find_option (c ∷ s) option buffer size =
    if length (c ∷ s) == length option
    then some (not_found 5 buffer)
    else if c == b';'
    then some (not_found 1 buffer)
    else if c == b'['
    then some (not_found 3 buffer)
    else if leb 1024 (length option) || leb 1024 (length (c ∷ s))
    then none
    else if is_option (ipc_strlwr (c ∷ s)) (ipc_strlwr option)
    then take_value (c ∷ s) buffer size
    else some (not_found 4 buffer)
