-- ===== src/System/Profile/Passing.antt =====
-- Lines that FindOption passes over.
use gipcy.Base.{ℕ, ◌<◌, ◌≡◌, refl, false, [], ◌∷◌, arith, leb, ◌==◌, length, Bool-cases, inl, inr}
use gipcy.System.Chars.{Text, ipc_strlwr}
use gipcy.System.Profile.{is_option, find_option}
use gipcy.System.Profile.Finds.{Passes}

pub Passes-blank : (key buffer : Text) (size : ℕ) → Passes key buffer size []
unfolding find_option
Passes-blank [] buffer size = (4, refl)
Passes-blank (c ∷ key) buffer size = (1, ground arith)

pub Passes-comment : (s key buffer : Text) (size : ℕ) → Passes key buffer size (b';' ∷ s)
unfolding find_option
Passes-comment s key buffer size = elim (Bool-cases (length (b';' ∷ s) == length key)) [
  | inl same ↦ (4, rw same)
  | inr other ↦ (0, rw other)
]

-- The header of any section.
pub Passes-section : (s key buffer : Text) (size : ℕ) → Passes key buffer size (b'[' ∷ s)
unfolding find_option
Passes-section s key buffer size = elim (Bool-cases (length (b'[' ∷ s) == length key)) [
  | inl same ↦ (4, rw same)
  | inr other ↦ (2, rw other)
]

-- A line that does not look like the option.
pub Passes-other :
    (c : ℕ) (s key buffer : Text) (size : ℕ)
    → length (c ∷ s) < 1024
    → length key < 1024
    → is_option (ipc_strlwr (c ∷ s)) (ipc_strlwr key) ≡ false
    → Passes key buffer size (c ∷ s)
unfolding find_option
Passes-other c s key buffer size short short' other =
    let k : leb 1024 (length key) ≡ false = ground arith in
    let l : leb 1024 (length (c ∷ s)) ≡ false = ground arith in
    elim (Bool-cases (length (c ∷ s) == length key)) [
      | inl same ↦ (4, rw same)
      | inr differ ↦ elim (Bool-cases (c == b';')) [
        | inl comment ↦ (0, rw (differ, comment))
        | inr e ↦ elim (Bool-cases (c == b'[')) [
          | inl section ↦ (2, rw (differ, e, section))
          | inr e' ↦ (3, rw (differ, e, e', k, l, other))
        ]
      ]
    ]
