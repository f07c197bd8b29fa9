-- ===== src/System/Examples.antt =====
-- The theorems on the helpers of sysipc.cpp at small files and numbers.
use gipcy.Base.{
  ℕ, zero, suc, ◌≡◌, ◌≢◌, ◌<◌, refl, pos, neg, false, [], ◌∷◌, ◌++◌, none, some, arith, length,
}
use gipcy.System.Chars.{Text, codes, ipc_strlwr, starts_with, strstr}
use gipcy.System.Profile.{Buffer, skip_blanks}
use gipcy.System.Profile.Sections.{Skips-comment}
use gipcy.System.Profile.Lines.{has_newline, IsLine}
use gipcy.System.Profile.Passing.{Passes-blank}
use gipcy.System.Profile.Read.{done, forever, ipc_get_private_profile_string}
use gipcy.System.Profile.Reads.{
  IsOption, IsHeader, ipc_get_private_profile_string-reads, ipc_get_private_profile_string-mistakes,
}
use gipcy.System.Profile.Ends.{ipc_get_private_profile_string-ends}
use gipcy.System.Profile.Hangs.{ipc_get_private_profile_string-hangs}
use gipcy.System.Itoa.{ipc_itoa}
use gipcy.System.Itoa.Digits.{read_number}
use gipcy.System.Itoa.RoundTrip.{IsInt, read_number-ipc_itoa}

itoa_255 : ipc_itoa (pos 255) 16 ≡ codes "ff"
unfolding ipc_itoa
itoa_255 = refl

itoa_min : ipc_itoa (neg 2147483648) 10 ≡ codes "-2147483648"
unfolding ipc_itoa
itoa_min = refl

itoa_base : ipc_itoa (pos 7) 37 ≡ []
unfolding ipc_itoa
itoa_base = refl

min_IsInt : IsInt (neg 2147483648)
min_IsInt = omega arith

read_number-ipc_itoa_example : read_number 16 (ipc_itoa (neg 2147483648) 16) ≡ neg 2147483648
read_number-ipc_itoa_example =
    read_number-ipc_itoa 16 (neg 2147483648) (omega arith) (omega arith) min_IsInt

-- An array with something in it.
abbrev old_bytes : Buffer
old_bytes k = 91

plain-IsLine : (l : Text) → has_newline l ≡ false → length l < 4096 → IsLine l
plain-IsLine l whole fits = record { whole = whole; fits = fits }

abbrev remark : Text
remark = codes "; ports"

remark-IsLine : IsLine remark
remark-IsLine = plain-IsLine remark refl (omega arith)

app-IsHeader : IsHeader (codes "app") (codes "App")
unfolding ipc_strlwr
app-IsHeader = record {
  same = refl;
  bytes = (omega arith, (omega arith, (omega arith, (omega arith, tt))));
  short = omega arith;
  line = plain-IsLine (codes "[app]") refl (omega arith);
}

key-IsOption : IsOption b'k' (codes "ey") b'v' (codes "al") 16
unfolding strstr starts_with skip_blanks
key-IsOption = record {
  name = record { no_comment = refl; no_section = refl; no_equals = refl };
  value = record {
    starts = refl;
    newline = refl;
    return = refl;
    tab = refl;
    semicolon = refl;
    hash = refl;
    slashes = refl;
  };
  line = plain-IsLine (codes "key=val") refl (omega arith);
  short = omega arith;
  room = omega arith;
}

lower_key : ipc_strlwr (codes "key") ≡ ipc_strlwr (codes "KEY")
unfolding ipc_strlwr
lower_key = refl

ipc_get_private_profile_string-reads_example :
    ipc_get_private_profile_string 5 old_bytes
      (some (codes "App"))
      (some (codes "KEY"))
      none
      []
      16
      (some (codes "; ports\n[app]\n\nkey=val\nkey=other\n"))
    ≡ done (pos 1, codes "val")
ipc_get_private_profile_string-reads_example =
    ipc_get_private_profile_string-reads (codes "app") (codes "App") app-IsHeader b'k' (codes "ey")
      b'v' (codes "al") 16 key-IsOption (remark ∷ [])
      (remark-IsLine, Skips-comment (codes " ports") (codes "App"), tt) (codes "key=other\n") []
      old_bytes none (codes "KEY") ([] ∷ []) 5 lower_key
      (plain-IsLine [] refl (omega arith), Passes-blank (codes "KEY") [] 16, tt) (omega arith)

ipc_get_private_profile_string-mistakes_example :
    ipc_get_private_profile_string 4 old_bytes
      (some (codes "App"))
      (some (codes "val"))
      (some (codes "none"))
      []
      16
      (some (codes "; ports\n[app]\nkey=val\n"))
    ≡ done (pos 1, codes "val")
ipc_get_private_profile_string-mistakes_example =
    ipc_get_private_profile_string-mistakes (codes "app") (codes "App") app-IsHeader b'k'
      (codes "ey") b'v' (codes "al") 16 key-IsOption (remark ∷ [])
      (remark-IsLine, Skips-comment (codes " ports") (codes "App"), tt) [] [] old_bytes
      (some (codes "none")) [] 4 refl tt (omega arith)

-- Letters to fill a line.
letters : ℕ → Text
letters zero = []
letters (suc n) = b'x' ∷ letters n

length-letters : (n : ℕ) → length (letters n) ≡ n
unfolding letters
length-letters zero = refl
length-letters (suc n) = omega (arith, length-letters n)

letters_whole : (n : ℕ) → has_newline (letters n) ≡ false
unfolding letters
letters_whole zero = refl
letters_whole (suc n) = letters_whole n

ipc_get_private_profile_string-hangs_example :
    ipc_get_private_profile_string 1000 old_bytes
      (some (codes "app"))
      (some (codes "key"))
      none
      []
      16
      (some (b';' ∷ (letters 4094 ++ b'y' ∷ codes "\n[app]\nkey=val\n")))
    ≡ forever
ipc_get_private_profile_string-hangs_example =
    ipc_get_private_profile_string-hangs (codes "app") (codes "key") (letters 4094)
      (codes "\n[app]\nkey=val\n") b'y' none [] 16 1000 old_bytes (length-letters 4094)
      (letters_whole 4094) (omega arith)

ipc_get_private_profile_string-ends_example :
    ipc_get_private_profile_string 3 old_bytes none
      (some (codes "key"))
      none
      []
      16
      (some (codes "; ports\n[app]"))
    ≢ forever
ipc_get_private_profile_string-ends_example =
    ipc_get_private_profile_string-ends none (some (codes "key")) none [] 16 3 old_bytes
      (remark ∷ []) (codes "[app]") (remark-IsLine, tt, tt)
      (plain-IsLine (codes "[app]") refl (omega arith)) (omega arith)
