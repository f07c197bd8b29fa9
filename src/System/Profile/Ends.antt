-- ===== src/System/Profile/Ends.antt =====
-- IPC_getPrivateProfileString returns on files whose lines fit the array.
use gipcy.Base.{
  ℕ, zero, suc, ◌+◌, ◌<◌, ◌≤◌, ◌≡◌, refl, ap, ◌∙◌, ◌⊎◌, inl, inr, ◌≢◌, ℤ, pos, negsuc, Bool, true,
  false, ◌||◌, List, [], ◌∷◌, Option, none, some, arith, length, ltb,
}
use gipcy.System.Chars.{Text}
use gipcy.System.Profile.{Buffer, Found, is_section, is_option_name}
use gipcy.System.Profile.Lines.{lines_text, IsLine, at, get_line-line, get_line-last}
use gipcy.System.Profile.Finds.{AllLines}
use gipcy.System.Profile.Read.{
  Stream, Reading, next_line, Outcome, done, fault, forever, ◌>>=◌, get_line, after_option,
  read_option, read_names, add_name, read_section, after_section, read_profile,
  ipc_get_private_profile_string,
}

-- The stream is at its end, or has fewer than `m` line feeds before it, in lines that fit.
abbrev Ahead : ℕ → Stream → Type 0
Ahead m f =
    (f.eof ≡ true)
    ⊎ ((ls : List Text) × (last : Text) × (f ≡ at (lines_text ls last))
        × AllLines (λ l. Unit {0}) ls
        × IsLine last
        × (length ls < m))

Ahead-mono : (m k : ℕ) (f : Stream) → m ≤ k → Ahead m f → Ahead k f
Ahead-mono m k f le (inl e) = inl e
Ahead-mono m k f le (inr (ls, last, same, fit, is, less)) =
    inr (ls, last, same, fit, is, omega arith)

get_line-Ahead : (m : ℕ) (f : Stream) → f.eof ≡ false → Ahead (suc m) f → Ahead m (get_line f).1
get_line-Ahead m f going (inl e) = cc
get_line-Ahead m f going (inr ([], last, same, fit, is, less)) =
    inl (ap (λ f. (get_line f).1.eof) same ∙ get_line-last last is)
get_line-Ahead m f going (inr (l ∷ ls, last, same, (is_l, u, fit), is, less)) = inr (
  ls,
  last,
  ap (λ f. (get_line f).1) same ∙ ap (λ p. p.1) (get_line-line l (lines_text ls last) is_l),
  fit,
  is,
  omega arith,
)

not-Ahead : (f : Stream) → f.eof ≡ false → Ahead zero f → ⊥
not-Ahead f going (inl e) = cc
not-Ahead f going (inr (ls, last, same, fit, is, less)) = omega arith

abbrev Ends : ℕ → Outcome Reading → Type 0
Ends m (done r) = Ahead m r.stream
Ends m fault = Unit {0}
Ends m forever = ⊥

Ends-mono : (m : ℕ) (o : Outcome Reading) → Ends m o → Ends (suc m) o
Ends-mono m (done r) e = Ahead-mono m (suc m) r.stream (omega arith) e
Ends-mono m fault e = tt
Ends-mono m forever e = e

after_option-Ends :
    (m : ℕ) (f : Option Found) (go_on : Reading → Outcome Reading) (r : Reading)
    → Ahead m r.stream
    → ((r : Reading) → Ahead m r.stream → Ends m (go_on r))
    → Ends m (after_option f go_on r)
unfolding after_option
after_option-Ends m none go_on r a next = tt
after_option-Ends m (some f) go_on r a next = go f.code
  where
    go :
        (code : ℤ)
        → Ends m (elim code [
          | pos zero ↦
              done (record r { here = f.buffer; set_default = f.set_default; found = true })
          | _ ↦ go_on (record r { here = f.buffer; set_default = f.set_default; found = false })
        ])
    go (pos zero) = a
    go (pos (suc c)) = next _ a
    go (negsuc c) = next _ a

-- A loop's test for the end of the file: past it, a round more is ahead.
unless_eof :
    (m : ℕ) (r : Reading) (b : Bool) (o : Outcome Reading)
    → Ahead m r.stream
    → r.stream.eof ≡ b
    → ((k : ℕ) → m ≡ suc k → Ahead k (get_line r.stream).1 → Ends k o)
    → Ends m (elim b [ true ↦ done r | false ↦ o ])
unless_eof m r true o a e next = a
unless_eof zero r false o a e next = absurd (not-Ahead r.stream e a)
unless_eof (suc k) r false o a e next = Ends-mono k o (next k refl (get_line-Ahead k r.stream e a))

read_option-Ends :
    (key : Text) (size n m : ℕ) (r : Reading)
    → m < n
    → Ahead m r.stream
    → Ends m (read_option n key size r)
unfolding read_option
read_option-Ends key size zero m r enough a = absurd (omega arith)
read_option-Ends key size (suc n) m r enough a = unless_eof m r r.stream.eof _ a refl (λ k same a'.
    after_option-Ends k _ (read_option n key size) (next_line r).1 a'
      (λ r' a''. read_option-Ends key size n k r' (omega arith) a''))

if_Ends :
    (m : ℕ) (b : Bool) (o o' : Outcome Reading)
    → Ends m o
    → Ends m o'
    → Ends m (elim b [ true ↦ o | false ↦ o' ])
if_Ends m true o o' e e' = e
if_Ends m false o o' e e' = e'

some-Ends :
    (m : ℕ) (x : Option Text) (o : Outcome Reading) (o' : Text → Outcome Reading)
    → Ends m o
    → ((t : Text) → Ends m (o' t))
    → Ends m (elim x [ none ↦ o | some t ↦ o' t ])
some-Ends m none o o' e e' = e
some-Ends m (some t) o o' e e' = e' t

add_name-Ends :
    (m size : ℕ) (name : Text) (go_on : Reading → Outcome Reading) (r : Reading)
    → Ahead m r.stream
    → ((r : Reading) → Ahead m r.stream → Ends m (go_on r))
    → Ends m (add_name size name go_on r)
unfolding add_name
add_name-Ends m size name go_on r a next =
    if_Ends m (ltb size (r.used + (length name + 1) + 1))
      (done (record r { used = r.used + (length name + 1) })) _ a (next _ a)

read_names-Ends :
    (size n m : ℕ) (r : Reading) → m < n → Ahead m r.stream → Ends m (read_names n size r)
unfolding read_names
read_names-Ends size zero m r enough a = absurd (omega arith)
read_names-Ends size (suc n) m r enough a = unless_eof m r r.stream.eof _ a refl (λ k same a'.
    if_Ends k (is_section (get_line r.stream).0) _ _ a' (
      some-Ends k (is_option_name (get_line r.stream).0) _ _
        (read_names-Ends size n k _ (omega arith) a')
        (λ name.
          add_name-Ends k size name (read_names n size) _ a'
            (λ r' a''. read_names-Ends size n k r' (omega arith) a''))))

read_section-Ends :
    (key : Option Text) (size n m : ℕ) (r : Reading)
    → m < n
    → Ahead m r.stream
    → Ends m (read_section n key size r)
unfolding read_section
read_section-Ends none size n m r enough a = read_names-Ends size n m r enough a
read_section-Ends (some key) size n m r enough a = read_option-Ends key size n m r enough a

>>=-Ends :
    (m : ℕ) (o : Outcome Reading) (go_on : Reading → Outcome Reading)
    → Ends m o
    → ((r : Reading) → Ahead m r.stream → Ends m (go_on r))
    → Ends m (o >>= go_on)
>>=-Ends m (done r) go_on e next = next r e
>>=-Ends m fault go_on e next = tt
>>=-Ends m forever go_on e next = e

after_section-Ends :
    (m : ℕ) (found : Option ℤ) (inner go_on : Reading → Outcome Reading) (r : Reading)
    → Ahead m r.stream
    → ((r : Reading) → Ahead m r.stream → Ends m (inner r))
    → ((r : Reading) → Ahead m r.stream → Ends m (go_on r))
    → Ends m (after_section found inner go_on r)
unfolding after_section
after_section-Ends m none inner go_on r a first next = tt
after_section-Ends m (some (pos zero)) inner go_on r a first next =
    >>=-Ends m (inner r) go_on (first r a) next
after_section-Ends m (some (pos (suc c))) inner go_on r a first next = next r a
after_section-Ends m (some (negsuc c)) inner go_on r a first next = next r a

-- The test of the outer loop.
unless_done :
    (m : ℕ) (r : Reading) (b : Bool) (o : Outcome Reading)
    → Ahead m r.stream
    → r.stream.eof ≡ b
    → ((k : ℕ) → m ≡ suc k → Ahead k (get_line r.stream).1 → Ends k o)
    → Ends m (elim (b || r.found) [ true ↦ done r | false ↦ o ])
unless_done m r true o a e next = a
unless_done zero r false o a e next = absurd (not-Ahead r.stream e a)
unless_done (suc k) r false o a e next =
    if_Ends (suc k) r.found (done r) o a
      (Ends-mono k o (next k refl (get_line-Ahead k r.stream e a)))

read_profile-Ends :
    (app key : Option Text) (size n m : ℕ) (r : Reading)
    → m < n
    → Ahead m r.stream
    → Ends m (read_profile n app key size r)
unfolding read_profile
read_profile-Ends app key size zero m r enough a = absurd (omega arith)
read_profile-Ends none key size (suc n) m r enough a =
    unless_done m r r.stream.eof _ a refl (λ k same a'.
      if_Ends k (is_section (get_line r.stream).0) _ _
        (add_name-Ends k size _ (read_profile n none key size) _ a'
          (λ r' a''. read_profile-Ends none key size n k r' (omega arith) a''))
        (read_profile-Ends none key size n k _ (omega arith) a'))
read_profile-Ends (some app) key size (suc n) m r enough a =
    unless_done m r r.stream.eof _ a refl (λ k same a'.
      after_section-Ends k _ (read_section n key size) (read_profile n (some app) key size) _ a'
        (λ r' a''. read_section-Ends key size n k r' (omega arith) a'')
        (λ r' a''. read_profile-Ends (some app) key size n k r' (omega arith) a''))

not_forever :
    (m : ℕ) (o : Outcome Reading) (g : Reading → ℤ × Text)
    → Ends m o
    → (o >>= λ r. done (g r)) ≢ forever
not_forever m (done r) g e h = cc
not_forever m fault g e h = cc
not_forever m forever g e h = e

-- On a file whose lines, with the last one behind the last line feed, each fit the array `str`,
-- IPC_getPrivateProfileString returns or faults within as many rounds as there are lines and two
-- more, whatever is asked for.
pub ipc_get_private_profile_string-ends :
    (app key default : Option Text) (old : Text) (size fuel : ℕ) (garbage : Buffer) (ls : List Text)
    (last : Text)
    → AllLines (λ l. Unit {0}) ls
    → IsLine last
    → length ls + 1 < fuel
    → ipc_get_private_profile_string fuel garbage app key default old size
        (some (lines_text ls last))
      ≢ forever
unfolding ipc_get_private_profile_string
ipc_get_private_profile_string-ends app key default old size fuel garbage ls last fit is enough =
    not_forever (length ls + 1) _ _ (
      read_profile-Ends app key size fuel (length ls + 1) _ enough
        (inr (ls, last, refl, fit, is, omega arith)))
