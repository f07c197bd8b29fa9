-- ===== src/System/Chars.antt =====
-- The functions of string.h and ctype.h that the helpers use, in the C locale. A C string is its
-- bytes before the terminating zero.
pub mod Search
use Prim.Native.Char.{code}
use Prim.Native.String.{String}
use gipcy.Base.{
  ℕ, ◌+◌, ◌-◌, Bool, true, false, ◌&&◌, ◌||◌, List, [], ◌∷◌, map, Option, none, some, leb, ◌==◌,
  if◌then◌else◌,
}

abbrev pub Text : Type 0
Text = List ℕ

-- The bytes of a literal.
abbrev pub codes : String → Text
codes String.[] = []
codes (String.◌∷◌ c s) = code c ∷ codes s

unfoldable pub to_lower : ℕ → ℕ
to_lower c = if leb b'A' c && leb c b'Z' then c + 32 else c

-- `IPC_strlwr`.
unfoldable pub ipc_strlwr : Text → Text
unfolding to_lower
ipc_strlwr s = map to_lower s

unfoldable pub starts_with : Text → Text → Bool
starts_with [] s = true
starts_with (x ∷ xs) [] = false
starts_with (x ∷ xs) (y ∷ ys) = x == y && starts_with xs ys

-- The part of the text from the first occurrence on.
unfoldable pub strstr : Text → Text → Option Text
unfolding starts_with
strstr [] part = if starts_with part [] then some [] else none
strstr (c ∷ s) part =
    let later = strstr s part in if starts_with part (c ∷ s) then some (c ∷ s) else later

-- What is left of a text when a zero is written at the first occurrence, if there is one.
unfoldable pub cut_at : Text → Text → Text
unfolding starts_with
cut_at [] part = []
cut_at (c ∷ s) part =
    let later = cut_at s part in if starts_with part (c ∷ s) then [] else c ∷ later
