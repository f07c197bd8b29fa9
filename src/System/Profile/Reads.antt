-- ===== src/System/Profile/Reads.antt =====
-- IPC_getPrivateProfileString on files of sections and options.
use gipcy.Base.{
  ℕ, ◌+◌, ◌<◌, ◌≡◌, sym, ap, ◌∙◌, pos, List, [], ◌∷◌, ◌++◌, Option, some, arith, length,
}
use gipcy.System.Chars.{Text, ipc_strlwr, strstr}
use gipcy.System.Chars.Search.{
  strstr-append, strstr-suffix, length-ipc_strlwr, ipc_strlwr-append, ipc_strlwr_split,
}
use gipcy.System.Profile.{Buffer, put_line, find_section, find_option}
use gipcy.System.Profile.Options.{IsName, IsValue, found, find_option-option, is_option-found}
use gipcy.System.Profile.Sections.{NoZero, Skips, find_section-header}
use gipcy.System.Profile.Lines.{lines_text, IsLine}
use gipcy.System.Profile.Finds.{Passes, AllLines, ipc_get_private_profile_string-finds}
use gipcy.System.Profile.Passing.{Passes-section}
use gipcy.System.Profile.Read.{done, ipc_get_private_profile_string}

-- The parts of an INI line.
abbrev pub header_line : Text → Text
header_line name = b'[' ∷ (name ++ b']' ∷ [])

abbrev pub option_line : Text → Text → Text
option_line n v = n ++ b'=' ∷ v

-- A name and a value that fit the arrays of FindOption and the caller's buffer.
pub record IsOption (x : ℕ) (n : Text) (c : ℕ) (v : Text) (size : ℕ) : Type 0 where
  pub name : IsName (x ∷ n)
  pub value : IsValue (c ∷ v)
  pub line : IsLine (option_line (x ∷ n) (c ∷ v))
  pub short : length (x ∷ n) + length (c ∷ v) < 1023
  pub room : length (c ∷ v) < size

-- The header of a section whose name is `app` but for the case of its letters.
pub record IsHeader (name app : Text) : Type 0 where
  pub same : ipc_strlwr name ≡ ipc_strlwr app
  pub bytes : NoZero (name ++ b']' ∷ [])
  pub short : length app < 1024
  pub line : IsLine (header_line name)

find_option-same :
    (x : ℕ) (n : Text) (c : ℕ) (v key here : Text) (size : ℕ)
    → IsOption x n c v size
    → ipc_strlwr (x ∷ n) ≡ ipc_strlwr key
    → find_option (option_line (x ∷ n) (c ∷ v)) key here size ≡ some (found (c ∷ v))
find_option-same x n c v key here size is same =
    let lengths : length (x ∷ n) ≡ length key =
      sym (length-ipc_strlwr (x ∷ n)) ∙ ap length same ∙ length-ipc_strlwr key in
    find_option-option x n c v key here size is.name is.value is.room lengths is.short (
      is_option-found (x ∷ n) (c ∷ v) key lengths (
        ipc_strlwr (x ∷ n) ++ ipc_strlwr (b'=' ∷ c ∷ v),
        ap (λ s. strstr s (ipc_strlwr key)) (ipc_strlwr-append (x ∷ n) (b'=' ∷ c ∷ v))
            ∙ rw (← same) (strstr-append (ipc_strlwr (x ∷ n)) (ipc_strlwr (b'=' ∷ c ∷ v))),
      ))

header-opens :
    (name app : Text) (b : Buffer)
    → IsHeader name app
    → find_section (header_line name) (put_line (header_line name) b) app ≡ some (pos 0)
header-opens name app b is =
    find_section-header name [] app b is.bytes is.same (omega (arith, is.line.fits)) is.short

module _ (name app : Text) (is_header : IsHeader name app) (x : ℕ) (n : Text) (c : ℕ) (v : Text)
    (size : ℕ) (is_option : IsOption x n c v size) (before : List Text)
    (skipped : AllLines (Skips app) before) (rest here : Text) (garbage : Buffer)
    (default : Option Text) where
  -- In a file, let there be lines that FindSection passes over, then the header `[name]`, then lines that
  -- FindOption passes over for `key`, then a line `n=v`, where `name` and `n` are the section and the key
  -- asked for but for the case of their letters. The name of the section has no zero byte; `n` is not
  -- empty, does not start with `;` or `[` and has no `=`; `v` is not empty, does not start with a blank
  -- and has no line feed, carriage return, tab, `;`, `#` or `//` in it. Each of these lines is shorter
  -- than 4096 bytes, the section asked for shorter than 1024, `n` and `v` together shorter than 1023, and
  -- `v` shorter than nSize. With fuel for the lines, IPC_getPrivateProfileString answers 1 and gives
  -- `v`, whatever else the file and the arrays hold.
  pub ipc_get_private_profile_string-reads :
      (key : Text) (between : List Text) (fuel : ℕ)
      → ipc_strlwr (x ∷ n) ≡ ipc_strlwr key
      → AllLines (Passes key here size) between
      → length before + length between + 1 < fuel
      → ipc_get_private_profile_string fuel garbage (some app) (some key) default here size (
          some (
            lines_text before (
              header_line name
              ++ b'\n' ∷ lines_text between (option_line (x ∷ n) (c ∷ v) ++ b'\n' ∷ rest))))
        ≡ done (pos 1, c ∷ v)
  ipc_get_private_profile_string-reads key between fuel same passed enough =
      ipc_get_private_profile_string-finds key (c ∷ v) size (option_line (x ∷ n) (c ∷ v)) rest here
        is_option.line (find_option-same x n c v key here size is_option same) app
        (header_line name) is_header.line (λ b. header-opens name app b is_header) between passed
        before fuel garbage default enough skipped

  -- A section without the key does not end at the next header: the value of that key in the section
  -- `other`, which follows, is given for it, with the answer 1.
  ipc_get_private_profile_string-crosses :
      (key other : Text) (fuel : ℕ)
      → ipc_strlwr (x ∷ n) ≡ ipc_strlwr key
      → IsLine (header_line other)
      → length before + 2 < fuel
      → ipc_get_private_profile_string fuel garbage (some app) (some key) default here size (
          some (
            lines_text before (
              header_line name
              ++ b'\n'
                ∷ (header_line other ++ b'\n' ∷ (option_line (x ∷ n) (c ∷ v) ++ b'\n' ∷ rest)))))
        ≡ done (pos 1, c ∷ v)
  ipc_get_private_profile_string-crosses key other fuel same line enough =
      ipc_get_private_profile_string-reads key (header_line other ∷ []) fuel same
        (line, Passes-section (other ++ b']' ∷ []) key here size, tt) (omega arith)

  -- In a file, let there be lines that FindSection passes over, then the header `[name]` of the section
  -- asked for (but for the case of its letters), then lines that FindOption passes over for the key `v`,
  -- then a line `n=v`, where the names `n` and `v` have the same length. The name of the section has no
  -- zero byte; `n` is not empty, does not start with `;` or `[` and has no `=`; `v` is not empty, does
  -- not start with a blank and has no line feed, carriage return, tab, `;`, `#` or `//` in it. Each of
  -- these lines is shorter than 4096 bytes, the section asked for shorter than 1024, `n` and `v` together
  -- shorter than 1023, and `v` shorter than nSize. With fuel for the lines,
  -- IPC_getPrivateProfileString, asked for the key `v`, takes the line for that key: it answers 1 and
  -- gives `v`, though the section may have no such key.
  pub ipc_get_private_profile_string-mistakes :
      (between : List Text) (fuel : ℕ)
      → length (x ∷ n) ≡ length (c ∷ v)
      → AllLines (Passes (c ∷ v) here size) between
      → length before + length between + 1 < fuel
      → ipc_get_private_profile_string fuel garbage (some app) (some (c ∷ v)) default here size (
          some (
            lines_text before (
              header_line name
              ++ b'\n' ∷ lines_text between (option_line (x ∷ n) (c ∷ v) ++ b'\n' ∷ rest))))
        ≡ done (pos 1, c ∷ v)
  ipc_get_private_profile_string-mistakes between fuel lengths passed enough =
      let (part, occurs) = strstr-suffix (ipc_strlwr ((x ∷ n) ++ b'=' ∷ [])) (ipc_strlwr (c ∷ v)) in
      ipc_get_private_profile_string-finds (c ∷ v) (c ∷ v) size (option_line (x ∷ n) (c ∷ v)) rest
        here is_option.line
        (find_option-option x n c v (c ∷ v) here size is_option.name is_option.value is_option.room
          lengths is_option.short
          (is_option-found (x ∷ n) (c ∷ v) (c ∷ v) lengths (
            part,
            ap (λ s. strstr s (ipc_strlwr (c ∷ v))) (ipc_strlwr_split (x ∷ n) b'=' (c ∷ v))
                ∙ occurs,
          )))
        app (header_line name) is_header.line (λ b. header-opens name app b is_header) between
        passed before fuel garbage default enough skipped
