-- ===== src/System/WriteExamples.antt =====
-- The theorems on writing INI files at small files.
use gipcy.Base.{◌≡◌, refl, pos, true, false, [], ◌∷◌, none, some, arith, length, ◌<◌}
use gipcy.System.Chars.{Text, codes, strstr, starts_with}
use gipcy.System.Profile.{is_section, is_option_name, skip_blanks}
use gipcy.System.Profile.Sections.{Skips-comment}
use gipcy.System.Profile.Lines.{has_newline}
use gipcy.System.Profile.Passing.{Passes-comment}
use gipcy.System.Profile.Read.{done, fault, ◌>>=◌, ipc_get_private_profile_string}
use gipcy.System.Profile.Reads.{IsHeader, IsOption}
use gipcy.System.Profile.Write.{chop, opens_app, sets_key, ipc_write_private_profile_string}
use gipcy.System.Profile.Write.Loops.{IsShort, NoHeader, Copied}
use gipcy.System.Profile.Write.Replaces.{ipc_write_private_profile_string-replaces}
use gipcy.System.Profile.Write.RoundTrip.{ipc_get_private_profile_string-writes}
use gipcy.System.Profile.Write.Ends.{
  ipc_write_private_profile_string-faults, ipc_write_private_profile_string-appends,
}

line-IsShort : (l : Text) → has_newline l ≡ false → length l < 1023 → IsShort l
line-IsShort l whole fits = record { whole = whole; fits = fits }

abbrev remark : Text
remark = codes "; ports"

remark-NoHeader : NoHeader (codes "app") remark
unfolding opens_app chop is_section
remark-NoHeader = (line-IsShort remark refl (omega arith), refl)

remark-Copied : Copied (codes "key") remark
unfolding sets_key is_option_name strstr starts_with is_section
remark-Copied = (line-IsShort remark refl (omega arith), refl, refl)

header-IsShort : IsShort (codes "[app]")
header-IsShort = line-IsShort (codes "[app]") refl (omega arith)

option-IsShort : IsShort (codes "key=old")
option-IsShort = line-IsShort (codes "key=old") refl (omega arith)

no_equals : strstr (codes "key") (b'=' ∷ []) ≡ none
unfolding strstr starts_with
no_equals = refl

ipc_write_private_profile_string-replaces_example :
    ipc_write_private_profile_string 60
      (codes "app")
      (codes "key")
      (codes "new")
      true
      (some (codes "; ports\n[app]\n; ports\nkey=old\n[net]\nkey=1"))
    ≡ done (pos 0, some (codes "; ports\n[app]\n; ports\nkey=new\n[net]\nkey=1"))
ipc_write_private_profile_string-replaces_example =
    ipc_write_private_profile_string-replaces (remark ∷ []) (remark ∷ []) (codes "app")
      (codes "key") (codes "old") (codes "new") (codes "[net]\nkey=1") (remark-NoHeader, tt)
      header-IsShort (remark-Copied, tt) no_equals option-IsShort (omega arith) 60 (omega arith)

ipc_write_private_profile_string-faults_example :
    ipc_write_private_profile_string 9
      (codes "app")
      (codes "key")
      (codes "new")
      true
      (some (codes "; ports\n[app]\n; ports\n"))
    ≡ fault
ipc_write_private_profile_string-faults_example =
    ipc_write_private_profile_string-faults (remark ∷ []) (remark ∷ []) (codes "app") (codes "key")
      (codes "new") 9 (remark-NoHeader, tt) header-IsShort (remark-Copied, tt) (omega arith)

ipc_write_private_profile_string-appends_example :
    ipc_write_private_profile_string 9
      (codes "app")
      (codes "key")
      (codes "new")
      true
      (some (codes "; ports\n; ports\n"))
    ≡ done (pos 0, some (codes "; ports\n; ports\n[app]\nkey=new\n"))
ipc_write_private_profile_string-appends_example =
    ipc_write_private_profile_string-appends remark (remark ∷ []) (codes "app") (codes "key")
      (codes "new") 9 (remark-NoHeader, (remark-NoHeader, tt)) (omega arith) (omega arith)

app-IsHeader : IsHeader (codes "app") (codes "app")
app-IsHeader = record {
  same = refl;
  bytes = (omega arith, (omega arith, (omega arith, (omega arith, tt))));
  short = omega arith;
  line = record { whole = refl; fits = omega arith };
}

key-IsOption : IsOption b'k' (codes "ey") b'n' (codes "ew") 16
unfolding strstr starts_with skip_blanks
key-IsOption = record {
  name = record { no_comment = refl; no_section = refl; no_equals = refl };
  value = record {
    starts = refl;
    newline = refl;
    return = refl;
    tab = refl;
    semicolon = refl;
    hash = refl;
    slashes = refl;
  };
  line = record { whole = refl; fits = omega arith };
  short = omega arith;
  room = omega arith;
}

ipc_get_private_profile_string-writes_example :
    (ipc_write_private_profile_string 60
        (codes "app")
        (codes "key")
        (codes "new")
        true
        (some (codes "; ports\n[app]\n; ports\nkey=old\n[net]\nkey=1"))
      >>= λ (result, file).
          ipc_get_private_profile_string 60
            (λ k. 91)
            (some (codes "app"))
            (some (codes "key"))
            none
            []
            16
            file)
    ≡ done (pos 1, codes "new")
ipc_get_private_profile_string-writes_example =
    ipc_get_private_profile_string-writes (codes "app") app-IsHeader header-IsShort b'k'
      (codes "ey") (codes "old") b'n' (codes "ew") 16 key-IsOption option-IsShort (remark ∷ [])
      (remark ∷ []) (codes "[net]\nkey=1") [] (λ k. 91) none 60 (omega arith) (remark-NoHeader, tt)
      (
        record { whole = refl; fits = omega arith },
        Skips-comment (codes " ports") (codes "app"),
        tt,
      )
      (remark-Copied, tt)
      (
        record { whole = refl; fits = omega arith },
        Passes-comment (codes " ports") (codes "key") [] 16,
        tt,
      )
      (omega arith)
