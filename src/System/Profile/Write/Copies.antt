-- ===== src/System/Profile/Write/Copies.antt =====
-- The loop that copies the rest of the file.
use mathlib.Core.List.{append_assoc}
use gipcy.Base.{
  ℕ, zero, suc, ◌+◌, ◌<◌, ◌≡◌, refl, sym, ap, ◌∙◌, ◌⊎◌, inl, inr, Bool-cases, Bool, true, false, [],
  ◌∷◌, ◌++◌, arith, leb, ◌==◌, length, length-append,
}
use gipcy.System.Chars.{Text}
use gipcy.System.Profile.Read.{done}
use gipcy.System.Profile.Write.{Writing, scan_fgets, fgets, put, copy_rest}
use gipcy.System.Profile.Write.Loops.{writing}

-- What fgets leaves: nothing, at the end of the file, or less than before.
abbrev Split : Text → Text × (Text × Bool) → Type 0
Split s read =
    (read ≡ (s, ([], true)))
    ⊎ ((line rest : Text) × (read ≡ (line, (rest, false)))
        × (line ++ rest ≡ s)
        × (length rest < length s))

Split-cons :
    (c : ℕ) (s : Text) (read : Text × (Text × Bool))
    → Split s read
    → Split (c ∷ s) (let (line, after) = read in (c ∷ line, after))
Split-cons c s read (inl e) = inl (ap (λ (line, after). (c ∷ line, after)) e)
Split-cons c s read (inr (line, rest, e, joined, less)) =
    inr (c ∷ line, rest, ap (λ (line, after). (c ∷ line, after)) e, ap (◌∷◌ c) joined, omega arith)

longer :
    (n : ℕ) (c : ℕ) (s : Text)
    → ((k : ℕ) → Split s (scan_fgets (suc k) s))
    → Split (c ∷ s) (let (line, after) = scan_fgets n s in (c ∷ line, after))
unfolding scan_fgets
longer zero c s shorter = inr (c ∷ [], s, refl, refl, omega arith)
longer (suc k) c s shorter = Split-cons c s (scan_fgets (suc k) s) (shorter k)

scan_fgets-Split : (n : ℕ) (s : Text) → Split s (scan_fgets (suc n) s)
unfolding scan_fgets
scan_fgets-Split n [] = inl refl
scan_fgets-Split n (c ∷ s) = elim (Bool-cases (c == b'\n')) [
  | inl newline ↦ rw newline (inr (c ∷ [], s, refl, refl, omega arith))
  | inr other ↦ rw other (longer n c s (λ k. scan_fgets-Split k s))
]

module _ (cap : ℕ) where
  put-ok :
      (s : Text) (w : Writing)
      → length w.buf + length s < cap
      → put cap s w ≡ done (record w { buf = w.buf ++ s; ready = true })
  unfolding put
  put-ok s w room = let fits : leb cap (length w.buf + length s) ≡ false = ground arith in rw fits

  -- The rest of the file is copied, whatever it is.
  pub copy_rest-all :
      (n : ℕ) (s buf : Text) (ready : Bool)
      → length s + 1 < n
      → length buf + length s < cap
      → (w : Writing) × (copy_rest n cap (writing s buf ready) ≡ done w) × (w.buf ≡ buf ++ s)
  unfolding copy_rest fgets
  copy_rest-all zero s buf ready enough room = absurd (omega arith)
  copy_rest-all (suc zero) s buf ready enough room = absurd (omega arith)
  copy_rest-all (suc (suc n)) s buf ready enough room = elim (scan_fgets-Split 1022 s) [
    | inl e ↦
        let w : Writing = record { rest = []; eof = true; buf = buf; ready = ready } in
        (record w { buf = buf ++ s; ready = true }, rw e (rw (put-ok s w room)), refl)
    | inr (line, rest, e, joined, less) ↦
        let whole : length line + length rest ≡ length s =
          sym (length-append line rest) ∙ ap length joined in
        let (w, copied, same) =
          copy_rest-all (suc n) rest (buf ++ line) true (omega arith)
            (omega (arith, whole, length-append buf line)) in
        (
          w,
          rw e (rw (put-ok line (writing rest buf ready) (omega (arith, whole))) copied),
          same ∙ (append_assoc buf line rest ∙ ap (◌++◌ buf) joined),
        )
  ]
