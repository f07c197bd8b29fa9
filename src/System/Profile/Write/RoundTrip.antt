-- ===== src/System/Profile/Write/RoundTrip.antt =====
-- A value that IPC_writePrivateProfileString has written, read by IPC_getPrivateProfileString.
use gipcy.Base.{ℕ, ◌+◌, ◌<◌, ◌≡◌, refl, pos, List, ◌∷◌, Option, some, arith, length, true}
use gipcy.System.Chars.{Text}
use gipcy.System.Profile.{Buffer}
use gipcy.System.Profile.Sections.{Skips}
use gipcy.System.Profile.Finds.{Passes, AllLines}
use gipcy.System.Profile.Read.{done, ◌>>=◌, ipc_get_private_profile_string}
use gipcy.System.Profile.Reads.{
  header_line, option_line, IsOption, IsHeader, ipc_get_private_profile_string-reads,
}
use gipcy.System.Profile.Write.{ipc_write_private_profile_string}
use gipcy.System.Profile.Write.Loops.{IsShort, Each, NoHeader, Copied}
use gipcy.System.Profile.Write.Replaces.{file_of, rounds, ipc_write_private_profile_string-replaces}

-- In a file with a section, whose header and the lines before it both functions take as such, and in it,
-- behind lines that both pass over, a line `key=old`: if key and value fit the arrays and the caller's
-- buffer, and a value is one that FindOption reads back, then with fuel for the file
-- IPC_writePrivateProfileString and then IPC_getPrivateProfileString succeed, and the value read is the
-- value written.
pub ipc_get_private_profile_string-writes :
    (app : Text) (is_header : IsHeader app app) (header : IsShort (header_line app)) (x : ℕ)
    (n : Text) (old : Text) (c : ℕ) (v : Text) (size : ℕ) (is_option : IsOption x n c v size)
    (line : IsShort (option_line (x ∷ n) old)) (before between : List Text) (rest here : Text)
    (garbage : Buffer) (default : Option Text) (fuel : ℕ)
    → length (x ∷ n) + length (c ∷ v) + 2 < 1024
    → Each (NoHeader app) before
    → AllLines (Skips app) before
    → Each (Copied (x ∷ n)) between
    → AllLines (Passes (x ∷ n) here size) between
    → length (file_of before app between (option_line (x ∷ n) old) rest) + 1 < fuel
    → (ipc_write_private_profile_string fuel app
          (x ∷ n)
          (c ∷ v)
          true
          (some (file_of before app between (option_line (x ∷ n) old) rest))
        >>= λ (result, file).
            ipc_get_private_profile_string fuel garbage
              (some app)
              (some (x ∷ n))
              default
              here
              size
              file)
      ≡ done (pos 1, c ∷ v)
ipc_get_private_profile_string-writes app is_header header x n old c v size is_option line before
      between rest here garbage default fuel short others skipped copied passed enough =
    let replaces =
      ipc_write_private_profile_string-replaces before between app (x ∷ n) old (c ∷ v) rest others
        header copied is_option.name.no_equals line short fuel enough in
    let few =
      rounds before between app (x ∷ n) old (c ∷ v) rest others header copied
        is_option.name.no_equals line short in
    rw replaces (
      ipc_get_private_profile_string-reads app app is_header x n c v size is_option before skipped
        rest here garbage default (x ∷ n) between fuel refl passed (omega (arith, enough, few)))
