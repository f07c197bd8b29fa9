-- ===== src/System/Profile/Write/Replaces.antt =====
-- IPC_writePrivateProfileString on a file that has the section and the key.
use mathlib.Core.List.{append_assoc}
use gipcy.Base.{
  ℕ, suc, ◌+◌, ◌-◌, ◌<◌, ◌≤◌, ◌≡◌, refl, sym, ap, ◌∙◌, pos, true, false, List, [], ◌∷◌, ◌++◌, none,
  some, arith, leb, length, length-append, same_text_refl, take,
}
use gipcy.System.Chars.{Text, strstr, cut_at, starts_with}
use gipcy.System.Chars.Search.{strstr-equals}
use gipcy.System.Profile.{last_or, is_section, is_option_name}
use gipcy.System.Profile.Lines.{lines_text}
use gipcy.System.Profile.Read.{done}
use gipcy.System.Profile.Reads.{header_line, option_line}
use gipcy.System.Profile.Write.{
  cat, lay, opens_app, sets_key, add_option, ipc_write_private_profile_string,
}
use gipcy.System.Profile.Write.Copies.{copy_rest-all}
use gipcy.System.Profile.Write.Loops.{
  IsShort, with_newline, chop-with_newline, put-fits, Each, NoHeader, Copied, find_app-found,
  find_key-found,
}

last_or-append : (s : Text) (c d : ℕ) → last_or (s ++ c ∷ []) d ≡ c
last_or-append [] c d = refl
last_or-append (x ∷ s) c d = last_or-append s c x

take-append : (s : Text) (c : ℕ) → take (length (s ++ c ∷ []) - 1) (s ++ c ∷ []) ≡ s
take-append s c =
    let n : length (s ++ c ∷ []) - 1 ≡ length s = omega (arith, length-append s (c ∷ [])) in
    rw n (take_whole s)
  where
    take_whole : (s : Text) → take (length s) (s ++ c ∷ []) ≡ s
    take_whole [] = refl
    take_whole (x ∷ s) = ap (◌∷◌ x) (take_whole s)

is_section-header_line : (app : Text) → is_section (header_line app) ≡ true
unfolding is_section
is_section-header_line app = rw (last_or-append app b']' b'[') refl

pub opens_app-header_line : (app : Text) → opens_app (with_newline (header_line app)) app ≡ true
unfolding opens_app
opens_app-header_line app =
    rw (chop-with_newline (header_line app), is_section-header_line app, take-append app b']')
      (same_text_refl app)

cut_at-equals : (s t : Text) → strstr s (b'=' ∷ []) ≡ none → cut_at (s ++ b'=' ∷ t) (b'=' ∷ []) ≡ s
unfolding strstr starts_with cut_at
cut_at-equals [] t h = refl
cut_at-equals (c ∷ s) t h = ground (arith, cut_at-equals s t)

is_option_name-equals :
    (key t : Text) → strstr key (b'=' ∷ []) ≡ none → is_option_name (key ++ b'=' ∷ t) ≡ some key
unfolding is_option_name
is_option_name-equals key t plain =
    rw (strstr-equals key t plain, is_option_name) (ap some (cut_at-equals key t plain))

sets_key-option_line :
    (key old : Text)
    → strstr key (b'=' ∷ []) ≡ none
    → sets_key (with_newline (option_line key old)) key ≡ true
unfolding sets_key
sets_key-option_line key old plain =
    rw (append_assoc key (b'=' ∷ old) (b'\n' ∷ []))
      (rw (is_option_name-equals key (old ++ b'\n' ∷ []) plain, sets_key) (same_text_refl key))

pub lines_text-append :
    (ls : List Text) (s t : Text) → lines_text ls s ++ t ≡ lines_text ls (s ++ t)
lines_text-append [] s t = refl
lines_text-append (l ∷ ls) s t =
    append_assoc l (b'\n' ∷ lines_text ls s) t ∙ ap (λ x. l ++ b'\n' ∷ x) (lines_text-append ls s t)

pub length-lines_text :
    (ls : List Text) (s : Text) → length ls + length s ≤ length (lines_text ls s)
length-lines_text [] s = omega arith
length-lines_text (l ∷ ls) s =
    omega (arith, length-lines_text ls s, length-append l (b'\n' ∷ lines_text ls s))

-- A file with a section and an option in it.
abbrev pub file_of : List Text → Text → List Text → Text → Text → Text
file_of before app between line rest =
    lines_text before (header_line app ++ b'\n' ∷ lines_text between (line ++ b'\n' ∷ rest))

pub lay-fits : (s : Text) → length s < 1024 → lay s ≡ done s
lay-fits s fits = let h : leb 1024 (length s) ≡ false = ground arith in rw h

module _ (before between : List Text) (app key old value rest : Text)
    (others : Each (NoHeader app) before) (header : IsShort (header_line app))
    (copied : Each (Copied key) between) (plain : strstr key (b'=' ∷ []) ≡ none)
    (line : IsShort (option_line key old)) (short : length key + length value + 2 < 1024) where
  abbrev old_file : Text
  old_file = file_of before app between (option_line key old) rest

  abbrev head : Text
  head = lines_text before (with_newline (header_line app))

  abbrev middle : Text
  middle = lines_text between []

  abbrev tail : Text
  tail = lines_text between (option_line key old ++ b'\n' ∷ rest)

  abbrev added : Text
  added = key ++ b'=' ∷ (value ++ b'\n' ∷ [])

  with_head : (t : Text) → head ++ t ≡ lines_text before (header_line app ++ b'\n' ∷ t)
  with_head t =
      lines_text-append before (with_newline (header_line app)) t
      ∙ ap (lines_text before) (append_assoc (header_line app) (b'\n' ∷ []) t)

  with_middle : (t : Text) → middle ++ t ≡ lines_text between t
  with_middle t = lines_text-append between [] t

  with_added : added ++ rest ≡ option_line key value ++ b'\n' ∷ rest
  with_added = simp append_assoc

  length_file : length head + length tail ≡ length old_file
  length_file = sym (length-append head tail) ∙ ap length (with_head tail)

  length-tail : length middle + (length (option_line key old) + suc (length rest)) ≡ length tail
  length-tail =
      let end = option_line key old ++ b'\n' ∷ rest in
      let split : length middle + length end ≡ length tail =
        sym (length-append middle end) ∙ ap length (with_middle end) in
      omega (arith, split, length-append (option_line key old) (b'\n' ∷ rest))

  length-added : length added ≡ length key + length value + 2
  length-added =
      omega
        (arith, length-append key (b'=' ∷ (value ++ b'\n' ∷ [])), length-append value (b'\n' ∷ []))

  pub rounds : length before + length between ≤ length old_file
  rounds = omega (
    arith,
    length_file,
    length-lines_text before (with_newline (header_line app)),
    length-lines_text between (option_line key old ++ b'\n' ∷ rest),
  )

  new_file :
      ((head ++ middle) ++ added) ++ rest ≡ file_of before app between (option_line key value) rest
  new_file =
      append_assoc (head ++ middle) added rest
      ∙ (append_assoc head middle (added ++ rest)
          ∙ (with_head (middle ++ (added ++ rest))
              ∙ ap (λ t. lines_text before (header_line app ++ b'\n' ∷ t))
                  (with_middle (added ++ rest) ∙ ap (lines_text between) with_added)))

  -- In a file with the header of the section, behind lines that are not, and in it, behind lines that set
  -- another key or none and start no section, a line `key=old`: if the line `key=value` and the lines
  -- up to the old one fit the arrays and the key has no `=`, then with fuel for the file
  -- IPC_writePrivateProfileString answers 0, and of the file only the value in that line has changed.
  pub ipc_write_private_profile_string-replaces :
      (fuel : ℕ)
      → length old_file + 1 < fuel
      → ipc_write_private_profile_string fuel app key value true (some old_file)
        ≡ done (pos 0, some (file_of before app between (option_line key value) rest))
  unfolding ipc_write_private_profile_string add_option cat
  ipc_write_private_profile_string-replaces fuel enough =
      let cap = length old_file + 1024 in
      let (w, copied_rest, whole) =
        copy_rest-all cap fuel rest ((head ++ middle) ++ added) true
          (omega (arith, length_file, length-tail))
          (omega (
            arith,
            length_file,
            length-tail,
            length-added,
            length-append (head ++ middle) added,
            length-append head middle,
          )) in
      rw
        (
          find_app-found cap app before (header_line app) tail fuel [] false others
              (header, opens_app-header_line app) (omega (arith, rounds))
              (omega (arith, length_file)),
          find_key-found cap key between (option_line key old) rest fuel head copied line
              (sets_key-option_line key old plain) (omega (arith, rounds))
              (omega (arith, length_file, length-tail)),
          lay-fits added (omega (arith, length-added)),
          put-fits cap added rest (head ++ middle) true
              (omega (arith, length_file, length-tail, length-added, length-append head middle)),
          copied_rest,
        )
        (ap (λ f. done (pos 0, some f)) (whole ∙ new_file))
