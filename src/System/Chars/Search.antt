-- ===== src/System/Chars/Search.antt =====
-- Laws of the searches in a text.
use gipcy.Base.{
  ℕ, suc, ◌≡◌, refl, ap, true, List, [], ◌∷◌, ◌++◌, none, some, arith, length, get_or, Bool-cases,
  inl, inr,
}
use gipcy.System.Chars.{Text, to_lower, ipc_strlwr, starts_with, strstr, cut_at}

pub starts_with-append : (s t : Text) → starts_with s (s ++ t) ≡ true
unfolding starts_with
starts_with-append [] t = refl
starts_with-append (c ∷ s) t = ground (arith, starts_with-append s t)

starts_with_refl : (s : Text) → starts_with s s ≡ true
unfolding starts_with
starts_with_refl [] = refl
starts_with_refl (c ∷ s) = ground (arith, starts_with_refl s)

-- A text is found where it starts.
pub strstr-append : (s t : Text) → strstr (s ++ t) s ≡ some (s ++ t)
unfolding strstr
strstr-append [] [] = refl
strstr-append [] (c ∷ t) = refl
strstr-append (c ∷ s) t = ground (arith, starts_with-append s t)

pub cut_at-absent : (s part : Text) → strstr s part ≡ none → cut_at s part ≡ s
unfolding strstr cut_at
cut_at-absent [] part h = refl
cut_at-absent (c ∷ s) part h = ground (arith, cut_at-absent s part)

-- The first `=` behind a text without one.
pub strstr-equals :
    (s t : Text)
    → strstr s (b'=' ∷ []) ≡ none
    → strstr (s ++ b'=' ∷ t) (b'=' ∷ []) ≡ some (b'=' ∷ t)
unfolding strstr starts_with
strstr-equals [] t h = refl
strstr-equals (c ∷ s) t h = ground (arith, strstr-equals s t)

pub length-ipc_strlwr : (s : Text) → length (ipc_strlwr s) ≡ length s
unfolding ipc_strlwr
length-ipc_strlwr [] = refl
length-ipc_strlwr (c ∷ s) = ap suc (length-ipc_strlwr s)

pub ipc_strlwr-append : (s t : Text) → ipc_strlwr (s ++ t) ≡ ipc_strlwr s ++ ipc_strlwr t
unfolding ipc_strlwr
ipc_strlwr-append [] t = refl
ipc_strlwr-append (c ∷ s) t = ap (◌∷◌ (to_lower c)) (ipc_strlwr-append s t)

-- The element behind the first part of a list.
pub get_or-append : {A : Type 0} (s t : List A) (c d : A) → get_or (s ++ c ∷ t) (length s) d ≡ c
get_or-append [] t c d = refl
get_or-append (x ∷ s) t c d = get_or-append s t c d

-- A text is found where it ends.
pub strstr-suffix : (s t : Text) → (part : Text) × (strstr (s ++ t) t ≡ some part)
unfolding strstr
strstr-suffix [] [] = ([], refl)
strstr-suffix [] (c ∷ t) = (c ∷ t, ground (arith, starts_with_refl (c ∷ t)))
strstr-suffix (c ∷ s) t = elim (Bool-cases (starts_with t (c ∷ (s ++ t)))) [
  | inl here ↦ (c ∷ (s ++ t), rw here)
  | inr later ↦ let (part, found) = strstr-suffix s t in (part, rw later found)
]

pub ipc_strlwr_split :
    (s : Text) (c : ℕ) (t : Text)
    → ipc_strlwr (s ++ c ∷ t) ≡ ipc_strlwr (s ++ c ∷ []) ++ ipc_strlwr t
unfolding ipc_strlwr
ipc_strlwr_split [] c t = refl
ipc_strlwr_split (x ∷ s) c t = ap (◌∷◌ (to_lower x)) (ipc_strlwr_split s c t)
