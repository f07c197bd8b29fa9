-- ===== src/System/Profile/Write/Ends.antt =====
-- IPC_writePrivateProfileString at the end of a file: a new key in the last section, and a new section.
use mathlib.Core.List.{append_assoc, append-nil}
use gipcy.Base.{
  ℕ, zero, suc, ◌+◌, ◌<◌, ◌≡◌, leb, refl, sym, ap, ◌∙◌, pos, Bool, true, false, List, [], ◌∷◌, ◌++◌,
  some, arith, length, length-append,
}
use gipcy.System.Chars.{Text, strstr, starts_with}
use gipcy.System.Profile.{is_option_name}
use gipcy.System.Profile.Lines.{lines_text}
use gipcy.System.Profile.Read.{Outcome, done, fault}
use gipcy.System.Profile.Reads.{header_line, option_line}
use gipcy.System.Profile.Write.{
  Writing, scan_fgets, fgets, put, cat, sets_key, take_header, find_app, take_option, find_key,
  copy_rest, add_option, ipc_write_private_profile_string,
}
use gipcy.System.Profile.Write.Loops.{
  writing, IsShort, with_newline, fgets-line, put-fits, pieces, Each, NoHeader, Copied,
  take_option-copied, find_app-step, find_app-found,
}
use gipcy.System.Profile.Write.Replaces.{opens_app-header_line, lines_text-append, lay-fits}

-- The locals at the end of the file.
abbrev at_end : Text → Bool → Writing
at_end buf ready = record { rest = []; eof = true; buf = buf; ready = ready }

fgets-end : (buf : Text) (ready : Bool) → fgets (writing [] buf ready) ≡ ([], at_end buf ready)
unfolding fgets scan_fgets
fgets-end buf ready = refl

take_option-end :
    (cap : ℕ) (key : Text) (go_on : Writing → Outcome (Text × Writing)) (w : Writing)
    → take_option cap [] key go_on w ≡ fault
unfolding take_option sets_key is_option_name strstr starts_with
take_option-end cap key go_on w = refl

find_key-fault :
    (cap : ℕ) (key : Text) (between : List Text) (n : ℕ) (buf : Text)
    → Each (Copied key) between
    → length between < n
    → length buf + length (lines_text between []) < cap
    → find_key n cap key (writing (lines_text between []) buf true) ≡ fault
unfolding find_key
find_key-fault cap key between zero buf copied enough room = absurd (omega arith)
find_key-fault cap key [] (suc n) buf copied enough room =
    rw (fgets-end buf true, take_option-end cap key (find_key n cap key) (at_end buf true))
find_key-fault cap key (l ∷ ls) (suc n) buf ((is_l, other, plain), copied) enough room =
    let t = lines_text ls [] in
    let sizes : length buf + (length l + suc (length t)) < cap =
      omega (arith, length-append l (b'\n' ∷ t)) in
    rw
      (
        fgets-line l t buf true is_l,
        take_option-copied cap l key (find_key n cap key) (writing t buf true) other plain,
        put-fits cap (with_newline l) t buf true
            (omega (arith, sizes, length-append l (b'\n' ∷ []))),
      )
      (find_key-fault cap key ls n (buf ++ with_newline l) copied (omega arith)
        (omega (arith, sizes, length-append buf (with_newline l), length-append l (b'\n' ∷ []))))

-- In a file that ends with a line feed and whose last section is the one asked for, without the key:
-- IPC_writePrivateProfileString writes before the start of an array, whatever the value.
pub ipc_write_private_profile_string-faults :
    (before between : List Text) (app key value : Text) (fuel : ℕ)
    → Each (NoHeader app) before
    → IsShort (header_line app)
    → Each (Copied key) between
    → length before + length between < fuel
    → ipc_write_private_profile_string fuel app key value true
        (some (lines_text before (header_line app ++ b'\n' ∷ lines_text between [])))
      ≡ fault
unfolding ipc_write_private_profile_string add_option
ipc_write_private_profile_string-faults before between app key value fuel others header copied
      enough =
    let tail = lines_text between [] in
    let head = lines_text before (with_newline (header_line app)) in
    let cap = length (lines_text before (header_line app ++ b'\n' ∷ tail)) + 1024 in
    let joined : head ++ tail ≡ lines_text before (header_line app ++ b'\n' ∷ tail) =
      lines_text-append before (with_newline (header_line app)) tail
      ∙ ap (lines_text before) (append_assoc (header_line app) (b'\n' ∷ []) tail) in
    let sizes : length head + length tail + 1024 ≡ cap =
      ap (λ k. k + 1024) (sym (length-append head tail) ∙ ap length joined) in
    rw (
      find_app-found cap app before (header_line app) tail fuel [] false others
          (header, opens_app-header_line app) (omega arith) (omega (arith, sizes)),
      find_key-fault cap key between fuel head copied (omega arith) (omega (arith, sizes)),
    )

find_app-end :
    (cap : ℕ) (app : Text) (n : ℕ) (buf : Text)
    → find_app (suc (suc n)) cap app (writing [] buf true) ≡ done (false, at_end buf true)
unfolding find_app take_header fgets scan_fgets
find_app-end cap app n buf = refl

module _ (cap : ℕ) (app : Text) where
  find_app-absent :
      (ls : List Text) (n : ℕ) (buf : Text)
      → Each (NoHeader app) ls
      → length ls + 1 < n
      → length buf + length (lines_text ls []) < cap
      → find_app n cap app (writing (lines_text ls []) buf true)
        ≡ done (false, at_end (buf ++ lines_text ls []) true)
  find_app-absent ls zero buf others enough room = absurd (omega arith)
  find_app-absent ls (suc zero) buf others enough room = absurd (omega arith)
  find_app-absent [] (suc (suc n)) buf others enough room =
      find_app-end cap app n buf ∙ ap (λ b. done (false, at_end b true)) (sym (append-nil buf))
  find_app-absent (l ∷ ls) (suc (suc n)) buf ((is, other), others) enough room =
      let t = lines_text ls [] in
      let sizes : length buf + (length l + suc (length t)) < cap =
        omega (arith, length-append l (b'\n' ∷ t)) in
      find_app-step cap app (suc n) l t buf true is
        (omega (arith, sizes, length-append l (b'\n' ∷ [])))
      ∙ (rw other (
            find_app-absent ls (suc n) (buf ++ with_newline l) others (omega arith) (
              omega
                (arith, sizes, length-append buf (with_newline l), length-append l (b'\n' ∷ []))))
          ∙ ap (λ b. done (false, at_end b true)) (pieces buf l t))

  -- The file has a line, so that `pCur` points to a zero at its end.
  find_app-absent_first :
      (l : Text) (ls : List Text) (n : ℕ)
      → Each (NoHeader app) (l ∷ ls)
      → length (l ∷ ls) + 1 < n
      → length (lines_text (l ∷ ls) []) < cap
      → find_app n cap app (writing (lines_text (l ∷ ls) []) [] false)
        ≡ done (false, at_end (lines_text (l ∷ ls) []) true)
  find_app-absent_first l ls zero others enough room = absurd (omega arith)
  find_app-absent_first l ls (suc n) ((is, other), others) enough room =
      let t = lines_text ls [] in
      let sizes : length l + suc (length t) < cap =
        omega (arith, room, length-append l (b'\n' ∷ t)) in
      find_app-step cap app n l t [] false is (omega (arith, sizes, length-append l (b'\n' ∷ [])))
      ∙ (rw other (
            find_app-absent ls n (with_newline l) others (omega arith)
              (omega (arith, sizes, length-append l (b'\n' ∷ []))))
          ∙ ap (λ b. done (false, at_end b true)) (pieces [] l t))

copy_rest-end :
    (cap n : ℕ) (buf : Text) (ready : Bool)
    → copy_rest (suc n) cap (at_end buf ready) ≡ done (at_end buf ready)
unfolding copy_rest
copy_rest-end cap n buf ready = refl

cat-fits :
    (cap : ℕ) (s buf : Text)
    → length buf + length s < cap
    → cat cap s (at_end buf true) ≡ done (at_end (buf ++ s) true)
unfolding cat put
cat-fits cap s buf room =
    let fits : leb cap (length buf + length s) ≡ false = ground arith in rw fits

-- The two texts that `sLine` is given.
abbrev header_text : Text → Text
header_text app = b'[' ∷ (app ++ b']' ∷ b'\n' ∷ [])

abbrev option_text : Text → Text → Text
option_text key value = key ++ b'=' ∷ (value ++ b'\n' ∷ [])

added_lines :
    (app key value : Text)
    → header_text app ++ option_text key value
      ≡ header_line app ++ b'\n' ∷ (option_line key value ++ b'\n' ∷ [])
added_lines app key value = simp append_assoc

appended :
    (ls : List Text) (app key value : Text)
    → (lines_text ls [] ++ header_text app) ++ option_text key value
      ≡ lines_text ls (header_line app ++ b'\n' ∷ (option_line key value ++ b'\n' ∷ []))
appended ls app key value =
    append_assoc (lines_text ls []) (header_text app) (option_text key value)
    ∙ (lines_text-append ls [] (header_text app ++ option_text key value)
        ∙ ap (lines_text ls) (added_lines app key value))

-- In a file of lines, at least one, none of which is the header of the section: if what is added fits
-- the arrays, IPC_writePrivateProfileString answers 0, and the file gets a header of the section and a
-- line for the key at its end.
pub ipc_write_private_profile_string-appends :
    (l : Text) (ls : List Text) (app key value : Text) (fuel : ℕ)
    → Each (NoHeader app) (l ∷ ls)
    → length app + length key + length value + 5 < 1024
    → length (l ∷ ls) + 1 < fuel
    → ipc_write_private_profile_string fuel app key value true (some (lines_text (l ∷ ls) []))
      ≡ done (
        pos 0,
        some (
            lines_text (l ∷ ls) (header_line app ++ b'\n' ∷ (option_line key value ++ b'\n' ∷ []))),
      )
unfolding ipc_write_private_profile_string add_option
ipc_write_private_profile_string-appends l ls app key value zero others short enough =
    absurd (omega arith)
ipc_write_private_profile_string-appends l ls app key value (suc n) others short enough =
    let file = lines_text (l ∷ ls) [] in
    let cap = length file + 1024 in
    let header = header_text app in
    let added = option_text key value in
    let sizes : (length header ≡ length app + 3) × (length added ≡ length key + length value + 2) =
      (
        omega (arith, length-append app (b']' ∷ b'\n' ∷ [])),
        omega (
          arith,
          length-append key (b'=' ∷ (value ++ b'\n' ∷ [])),
          length-append value (b'\n' ∷ []),
        ),
      ) in
    rw
      (
        find_app-absent_first cap app l ls (suc n) others enough (omega arith),
        lay-fits header (omega (arith, sizes)),
        cat-fits cap header file (omega (arith, sizes)),
        lay-fits added (omega (arith, sizes)),
        cat-fits cap added (file ++ header) (omega (arith, sizes, length-append file header)),
        copy_rest-end cap n ((file ++ header) ++ added) true,
      )
      (ap (λ f. done (pos 0, some f)) (appended (l ∷ ls) app key value))
