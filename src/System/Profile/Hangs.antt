-- ===== src/System/Profile/Hangs.antt =====
-- A line that does not fit the array makes IPC_getPrivateProfileString loop for ever.
use gipcy.Base.{
  ℕ, zero, suc, ◌≡◌, refl, ap, ◌≢◌, true, false, [], ◌∷◌, ◌++◌, Option, some, arith, length,
}
use gipcy.System.Chars.{Text}
use gipcy.System.Profile.{Buffer, put_line}
use gipcy.System.Profile.Lines.{at, has_newline, get_line-full}
use gipcy.System.Profile.Sections.{Skips-blank, Skips-comment}
use gipcy.System.Profile.Read.{
  as_int, ended, or_default, Stream, done, forever, ◌>>=◌, get_line, after_section, read_profile,
  ipc_get_private_profile_string,
}

-- A stream that has failed before its end stays so, and gives empty lines.
abbrev failed : Text → Stream
failed rest = record { rest = rest; eof = false; fail = true }

get_line-failed : (rest : Text) → get_line (failed rest) ≡ ([], failed rest)
unfolding get_line
get_line-failed rest = refl

stuck :
    (app key : Text) (size n used : ℕ) (rest here : Text) (str : Buffer)
    → read_profile n (some app) (some key) size (record {
      stream = failed rest;
      str = str;
      used = used;
      out = [];
      here = here;
      set_default = true;
      found = false;
    })
      ≡ forever
unfolding read_profile after_section
stuck app key size zero used rest here str = refl
stuck app key size (suc n) used rest here str =
    let (c, skips) = Skips-blank app str in
    rw (get_line-failed rest)
      (rw (skips, after_section) (stuck app key size n used rest here (put_line [] str)))

hangs_reading :
    (app key l rest : Text) (c : ℕ) (here : Text) (size n : ℕ) (str : Buffer)
    → length l ≡ 4094
    → has_newline l ≡ false
    → c ≢ b'\n'
    → read_profile n (some app) (some key) size (record {
      stream = at (b';' ∷ (l ++ c ∷ rest));
      str = str;
      used = 0;
      out = [];
      here = here;
      set_default = true;
      found = false;
    })
      ≡ forever
unfolding read_profile after_section
hangs_reading app key l rest c here size zero str long whole more = refl
hangs_reading app key l rest c here size (suc n) str long whole more =
    let (k, skips) = Skips-comment l app str in
    rw (get_line-full (b';' ∷ l) c rest whole (omega arith) more)
      (rw (skips, after_section) (stuck app key size n 0 (c ∷ rest) here (put_line (b';' ∷ l) str)))

-- A comment that does not fit `str` (4095 bytes and one more, with no line feed among them) at the start
-- of a file makes IPC_getPrivateProfileString loop for ever: no number of rounds is enough.
pub ipc_get_private_profile_string-hangs :
    (app key l rest : Text) (c : ℕ) (default : Option Text) (old : Text) (size fuel : ℕ)
    (garbage : Buffer)
    → length l ≡ 4094
    → has_newline l ≡ false
    → c ≢ b'\n'
    → ipc_get_private_profile_string fuel garbage
        (some app)
        (some key)
        default
        old
        size
        (some (b';' ∷ (l ++ c ∷ rest)))
      ≡ forever
unfolding ipc_get_private_profile_string
ipc_get_private_profile_string-hangs app key l rest c default old size fuel garbage long whole
      more =
    ap
      (λ o. o >>= λ r. done (
        as_int r.found,
        r.out ++ ended (some app) (some key) (or_default r.set_default default r.here),
      ))
      (hangs_reading app key l rest c old size fuel garbage long whole more)
