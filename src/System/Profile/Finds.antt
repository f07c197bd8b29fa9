-- ===== src/System/Profile/Finds.antt =====
-- IPC_getPrivateProfileString on a file whose lines FindSection and FindOption settle.
use gipcy.Base.{
  ℕ, zero, suc, ◌+◌, ◌<◌, ◌≡◌, pos, Bool, true, false, List, [], ◌∷◌, ◌++◌, Option, some, arith,
  length,
}
use gipcy.System.Chars.{Text}
use gipcy.System.Profile.{Buffer, put_line, find_section, not_found, find_option}
use gipcy.System.Profile.Options.{found}
use gipcy.System.Profile.Sections.{Skips}
use gipcy.System.Profile.Lines.{lines_text, IsLine, at, get_line-line}
use gipcy.System.Profile.Read.{
  Reading, Outcome, done, ◌>>=◌, after_option, read_option, after_section, read_section,
  read_profile, ipc_get_private_profile_string,
}

-- FindOption passes the line over and leaves the caller's buffer as it is.
abbrev pub Passes : Text → Text → ℕ → Text → Type 0
Passes key buffer size line =
    (c : ℕ) × (find_option line key buffer size ≡ some (not_found (suc c) buffer))

abbrev pub AllLines : (Text → Type 0) → List Text → Type 0
AllLines P [] = Unit {0}
AllLines P (l ∷ ls) = IsLine l × P l × AllLines P ls

-- The locals before a line, while nothing was written before `lpReturnedString`.
abbrev reading : Text → Buffer → ℕ → Text → Bool → Bool → Reading
reading rest str used here set_default found = record {
  stream = at rest;
  str = str;
  used = used;
  out = [];
  here = here;
  set_default = set_default;
  found = found;
}

-- A reading that has found the value.
HasFound : Text → Outcome Reading → Type 0
HasFound value o =
    (rest : Text) × (str : Buffer) × (used : ℕ) × (o
      ≡ done (reading rest str used value false true))

module _ (key value : Text) (size : ℕ) (line rest here : Text) (is_line : IsLine line)
    (hit : find_option line key here size ≡ some (found value)) where
  read_option-HasFound :
      (skipped : List Text) (n : ℕ) (str : Buffer) (used : ℕ) (set_default found : Bool)
      → length skipped < n
      → AllLines (Passes key here size) skipped
      → HasFound value (
          read_option n key size
            (reading (lines_text skipped (line ++ b'\n' ∷ rest)) str used here set_default found))
  unfolding read_option after_option HasFound
  read_option-HasFound skipped zero str used d f enough passed = absurd (omega arith)
  read_option-HasFound [] (suc n) str used d f enough passed =
      (rest, put_line line str, used, rw (get_line-line line rest is_line) (rw (hit, after_option)))
  read_option-HasFound (l ∷ ls) (suc n) str used d f enough (is_l, (c, pass), more) =
      rw (get_line-line l (lines_text ls (line ++ b'\n' ∷ rest)) is_l) (
        rw (pass, after_option)
          (read_option-HasFound ls n (put_line l str) used true false (omega arith) more))

  module _ (app header : Text) (is_header : IsLine header)
      (opens : (b : Buffer) → find_section header (put_line header b) app ≡ some (pos 0))
      (between : List Text) (passed : AllLines (Passes key here size) between) where
    -- The text of the file from the header on.
    abbrev from_header : Text
    from_header = header ++ b'\n' ∷ lines_text between (line ++ b'\n' ∷ rest)

    leaves :
        (n : ℕ) (o : Outcome Reading)
        → HasFound value o
        → HasFound value (o >>= read_profile (suc n) (some app) (some key) size)
    unfolding read_profile HasFound
    leaves n o (rest', str, used, e) = (rest', str, used, rw e)

    read_profile-HasFound :
        (before : List Text) (n : ℕ) (str : Buffer) (used : ℕ) (set_default : Bool)
        → length before + length between + 1 < n
        → AllLines (Skips app) before
        → HasFound value (
            read_profile n
              (some app)
              (some key)
              size
              (reading (lines_text before from_header) str used here set_default false))
    unfolding read_profile after_section read_section
    read_profile-HasFound before zero str used d enough skipped = absurd (omega arith)
    read_profile-HasFound before (suc zero) str used d enough skipped = absurd (omega arith)
    read_profile-HasFound [] (suc (suc n)) str used d enough skipped =
        rw (get_line-line header (lines_text between (line ++ b'\n' ∷ rest)) is_header) (
          rw (opens str, after_section)
            (leaves n _ (
              read_option-HasFound between (suc n) (put_line header str) used d false (omega arith)
                passed)))
    read_profile-HasFound (l ∷ ls) (suc (suc n)) str used d enough (is_l, skip, more) =
        let (c, skips) = skip str in
        rw (get_line-line l (lines_text ls from_header) is_l) (
          rw (skips, after_section)
            (read_profile-HasFound ls (suc n) (put_line l str) used d (omega arith) more))

    -- In a file that holds a line that FindSection takes for the section `app`, behind lines that it
    -- passes over, and then a line in which FindOption finds `value` for the key, behind lines that it
    -- passes over: with fuel for the lines, IPC_getPrivateProfileString answers 1 and gives `value`,
    -- whatever was in `str`, and whatever the default and the rest of the file.
    pub ipc_get_private_profile_string-finds :
        (before : List Text) (fuel : ℕ) (garbage : Buffer) (default : Option Text)
        → length before + length between + 1 < fuel
        → AllLines (Skips app) before
        → ipc_get_private_profile_string fuel garbage
            (some app)
            (some key)
            default
            here
            size
            (some (lines_text before from_header))
          ≡ done (pos 1, value)
    unfolding ipc_get_private_profile_string HasFound
    ipc_get_private_profile_string-finds before fuel garbage default enough skipped =
        let (r, s, u, e) = read_profile-HasFound before fuel garbage 0 true enough skipped in rw e
