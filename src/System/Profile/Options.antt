-- ===== src/System/Profile/Options.antt =====
-- FindOption on the line of an option.
use gipcy.Base.{
  ℕ, ◌+◌, ◌<◌, ◌≡◌, sym, ◌∙◌, pos, true, false, [], ◌∷◌, ◌++◌, none, some, arith, leb, ◌==◌, length,
  length-append, get_or,
}
use gipcy.System.Chars.{Text, ipc_strlwr, starts_with, strstr}
use gipcy.System.Chars.Search.{
  cut_at-absent, strstr-equals, length-ipc_strlwr, ipc_strlwr-append, get_or-append,
}
use gipcy.System.Profile.{
  skip_blanks, cut_value, strip_line_end, take_value, is_option, Found, find_option,
}

-- A value that FindOption reads back as it stands: it is not empty, does not start with a blank, and
-- has none of the six marks in it.
pub record IsValue (v : Text) : Type 0 where
  pub starts : skip_blanks v ≡ v
  pub newline : strstr v (b'\n' ∷ []) ≡ none
  pub return : strstr v (b'\r' ∷ []) ≡ none
  pub tab : strstr v (b'\t' ∷ []) ≡ none
  pub semicolon : strstr v (b';' ∷ []) ≡ none
  pub hash : strstr v (b'#' ∷ []) ≡ none
  pub slashes : strstr v (b'/' ∷ b'/' ∷ []) ≡ none

-- The name of an option, as far as the first bytes go: no comment, no section, no `=` in it.
pub record IsName (n : Text) : Type 0 where
  pub no_comment : starts_with (b';' ∷ []) n ≡ false
  pub no_section : starts_with (b'[' ∷ []) n ≡ false
  pub no_equals : strstr n (b'=' ∷ []) ≡ none

cut_value-IsValue : (v : Text) → IsValue v → cut_value v ≡ v
unfolding cut_value
cut_value-IsValue v is = rw (
  cut_at-absent v (b'\n' ∷ []) is.newline,
  cut_at-absent v (b'\r' ∷ []) is.return,
  cut_at-absent v (b'\t' ∷ []) is.tab,
  cut_at-absent v (b';' ∷ []) is.semicolon,
  cut_at-absent v (b'#' ∷ []) is.hash,
  cut_at-absent v (b'/' ∷ b'/' ∷ []) is.slashes,
)

strip_line_end-value :
    (c : ℕ) (v : Text)
    → strstr (c ∷ v) (b'\n' ∷ []) ≡ none
    → strstr (c ∷ v) (b'\r' ∷ []) ≡ none
    → strip_line_end (c ∷ v) ≡ some (c ∷ v)
unfolding strip_line_end strstr starts_with
strip_line_end-value c [] n r = ground arith
strip_line_end-value c (d ∷ v) n r = ground (arith, strip_line_end-value d v)

abbrev pub found : Text → Found
found v = record { code = pos 0; set_default = false; buffer = v }

take_value-option :
    (n : Text) (c : ℕ) (v buffer : Text) (size : ℕ)
    → strstr n (b'=' ∷ []) ≡ none
    → IsValue (c ∷ v)
    → length (c ∷ v) < size
    → take_value (n ++ b'=' ∷ c ∷ v) buffer size ≡ some (found (c ∷ v))
unfolding take_value
take_value-option n c v buffer size plain is room =
    let room' : leb (length (c ∷ v) + 1) size ≡ true = ground arith in
    rw (strstr-equals n (c ∷ v) plain, take_value)
      (rw (is.starts) (
        rw (cut_value-IsValue (c ∷ v) is)
          (rw room' (rw (strip_line_end-value c v is.newline is.return)))))

first : (x : ℕ) (n : Text) (c : ℕ) → starts_with (c ∷ []) (x ∷ n) ≡ false → (x == c) ≡ false
unfolding starts_with
first x n c h = ground arith

-- The line `n=v` is the option `key` if their lengths agree and `key` occurs in the line.
pub find_option-option :
    (x : ℕ) (n : Text) (c : ℕ) (v key buffer : Text) (size : ℕ)
    → IsName (x ∷ n)
    → IsValue (c ∷ v)
    → length (c ∷ v) < size
    → length (x ∷ n) ≡ length key
    → length (x ∷ n) + length (c ∷ v) < 1023
    → is_option (ipc_strlwr (x ∷ (n ++ b'=' ∷ c ∷ v))) (ipc_strlwr key) ≡ true
    → find_option (x ∷ (n ++ b'=' ∷ c ∷ v)) key buffer size ≡ some (found (c ∷ v))
unfolding find_option
find_option-option x n c v key buffer size name is room same short hit =
    let long : length (n ++ b'=' ∷ c ∷ v) ≡ length n + (2 + length v) =
      omega (arith, length-append n (b'=' ∷ c ∷ v)) in
    let a : (x == b';') ≡ false = first x n b';' name.no_comment in
    let b : (x == b'[') ≡ false = first x n b'[' name.no_section in
    let lengths : (length (x ∷ (n ++ b'=' ∷ c ∷ v)) == length key) ≡ false = ground arith in
    let k : leb 1024 (length key) ≡ false = ground arith in
    let l : leb 1024 (length (x ∷ (n ++ b'=' ∷ c ∷ v))) ≡ false = ground arith in
    rw (lengths, a, b, k, l, hit) (take_value-option (x ∷ n) c v buffer size name.no_equals is room)

pub is_option-found :
    (n t key : Text)
    → length n ≡ length key
    → (part : Text) × (strstr (ipc_strlwr (n ++ b'=' ∷ t)) (ipc_strlwr key) ≡ some part)
    → is_option (ipc_strlwr (n ++ b'=' ∷ t)) (ipc_strlwr key) ≡ true
unfolding is_option ipc_strlwr
is_option-found n t key same (part, here) =
    let len : length (ipc_strlwr key) ≡ length (ipc_strlwr n) =
      length-ipc_strlwr key ∙ sym same ∙ sym (length-ipc_strlwr n) in
    let next : get_or (ipc_strlwr (n ++ b'=' ∷ t)) (length (ipc_strlwr key)) 0 ≡ b'=' =
      rw (len, ipc_strlwr-append n (b'=' ∷ t))
        (get_or-append (ipc_strlwr n) (ipc_strlwr t) b'=' 0) in
    rw (here, next)
