-- ===== src/System/Profile/Lines.antt =====
-- Files as lists of lines, and what `getline` makes of them.
use gipcy.Base.{
  ℕ, zero, suc, ◌<◌, ◌≤◌, ◌≡◌, refl, ◌≢◌, Bool, true, false, ◌||◌, List, [], ◌∷◌, ◌++◌, arith, ◌==◌,
  length,
}
use gipcy.System.Chars.{Text}
use gipcy.System.Profile.Read.{Stream, at_end, at_newline, full, scan_line, get_line}

abbrev pub lines_text : List Text → Text → Text
lines_text [] rest = rest
lines_text (l ∷ ls) rest = l ++ b'\n' ∷ lines_text ls rest

abbrev pub has_newline : Text → Bool
has_newline [] = false
has_newline (c ∷ s) = c == b'\n' || has_newline s

-- A line that the array holds.
pub record IsLine (l : Text) : Type 0 where
  pub whole : has_newline l ≡ false
  pub fits : length l < 4096

abbrev pub at : Text → Stream
at s = record { rest = s; eof = false; fail = false }

scan_line-line :
    (l rest : Text) (n : ℕ)
    → has_newline l ≡ false
    → length l ≤ n
    → scan_line n (l ++ b'\n' ∷ rest) ≡ (l, (rest, at_newline))
unfolding scan_line
scan_line-line [] rest zero whole room = refl
scan_line-line [] rest (suc n) whole room = refl
scan_line-line (c ∷ l) rest zero whole room = absurd (omega arith)
scan_line-line (c ∷ l) rest (suc n) whole room = ground (arith, scan_line-line l rest n)

pub get_line-line : (l rest : Text) → IsLine l → get_line (at (l ++ b'\n' ∷ rest)) ≡ (l, at rest)
unfolding get_line
get_line-line l rest is = rw (scan_line-line l rest 4095 is.whole (omega (arith, is.fits)))

-- The last line, with no line feed behind it.
scan_line-last :
    (l : Text) (n : ℕ) → has_newline l ≡ false → length l ≤ n → scan_line n l ≡ (l, ([], at_end))
unfolding scan_line
scan_line-last [] n whole room = refl
scan_line-last (c ∷ l) zero whole room = absurd (omega arith)
scan_line-last (c ∷ l) (suc n) whole room = ground (arith, scan_line-last l n)

pub get_line-last : (l : Text) → IsLine l → (get_line (at l)).1.eof ≡ true
unfolding get_line
get_line-last l is = rw (scan_line-last l 4095 is.whole (omega (arith, is.fits)))

scan_line-full :
    (l : Text) (c : ℕ) (rest : Text) (n : ℕ)
    → has_newline l ≡ false
    → length l ≡ n
    → c ≢ b'\n'
    → scan_line n (l ++ c ∷ rest) ≡ (l, (c ∷ rest, full))
unfolding scan_line
scan_line-full [] c rest zero whole long more = ground arith
scan_line-full [] c rest (suc n) whole long more = absurd (omega arith)
scan_line-full (d ∷ l) c rest zero whole long more = absurd (omega arith)
scan_line-full (d ∷ l) c rest (suc n) whole long more = ground (arith, scan_line-full l c rest n)

-- A line that is too long makes the stream fail before its end.
pub get_line-full :
    (l : Text) (c : ℕ) (rest : Text)
    → has_newline l ≡ false
    → length l ≡ 4095
    → c ≢ b'\n'
    → get_line (at (l ++ c ∷ rest)) ≡ (l, record { rest = c ∷ rest; eof = false; fail = true })
unfolding get_line
get_line-full l c rest whole long more = rw (scan_line-full l c rest 4095 whole long more)
