-- ===== src/System/Profile/Sections.antt =====
-- FindSection on lines that the first byte settles: sections, comments and empty lines.
use gipcy.Base.{
  ℕ, zero, suc, ◌+◌, ◌-◌, ◌%◌, ◌^◌, ◌<◌, ◌≡◌, refl, sym, ap, ◌∙◌, ◌≢◌, pos, neg, negsuc, true,
  false, [], ◌∷◌, ◌++◌, some, arith, leb, ltb, ◌==◌, if◌then◌else◌, length, length-append, ◌⊎◌, inl,
  inr,
}
use gipcy.System.Chars.{Text, ipc_strlwr}
use gipcy.System.Chars.Search.{strstr-append, length-ipc_strlwr, ipc_strlwr-append, get_or-append}
use gipcy.System.Profile.{
  Buffer, put_line, text_at, is_named, section_here, find_section_loop, find_section,
}

-- The bytes of a text are not zero.
abbrev pub NoZero : Text → Type 0
NoZero [] = Unit {0}
NoZero (c ∷ s) = (c ≢ 0) × NoZero s

text_at-put_line :
    (s : Text) (n k : ℕ) (b src : Buffer)
    → ((j : ℕ) → src (k + j) ≡ put_line s b j)
    → NoZero s
    → length s < n
    → text_at n src k ≡ some s
unfolding text_at put_line
text_at-put_line s zero k b src same nz room = absurd (omega arith)
text_at-put_line [] (suc n) k b src same nz room =
    let e : src k ≡ 0 = ap src (omega arith) ∙ same 0 in rw (e, text_at)
text_at-put_line (c ∷ s) (suc n) k b src same nz room =
    let e : src k ≡ c = ap src (omega arith) ∙ same 0 in
    let later : text_at n src (k + 1) ≡ some s =
      text_at-put_line s n (k + 1) (λ j. b (suc j)) src (λ j. ap src (omega arith) ∙ same (suc j))
        nz.1 (omega arith) in
    let no_end : (c == 0) ≡ false = ground (arith, nz.0) in
    rw (e, text_at) (rw no_end (rw later (ap (λ x. some (x ∷ s)) e)))

fits : (n : ℕ) → n < 1024 → leb 1024 n ≡ false
fits n h = ground arith

-- The name that is copied from the byte behind `[`.
section_here-line :
    (s : Text) (b : Buffer) (section : Text)
    → NoZero s
    → length s < 4095
    → length section < 1024
    → section_here (put_line (b'[' ∷ s) b) 1 section
      ≡ some (if is_named (ipc_strlwr s) (ipc_strlwr section) then pos 0 else neg 3)
unfolding section_here put_line
section_here-line s b section nz room short =
    let name : text_at 4095 (put_line (b'[' ∷ s) b) 1 ≡ some s =
      text_at-put_line s 4095 1 (λ j. b (suc j)) (put_line (b'[' ∷ s) b)
        (λ j. let p : 1 + j ≡ suc j = omega arith in ap (put_line (b'[' ∷ s) b) p) nz room in
    rw (name, section_here) (rw (fits (length section) short))

-- The first round of the loop.
loop_first :
    (n limit : ℕ) (src : Buffer) (section : Text)
    → 0 < limit
    → find_section_loop (suc n) 0 limit src section ≡ (
        if src 0 == b';'
        then some (neg 1)
        else if src 0 == 0
        then some (neg 2)
        else if src 0 == b'['
        then section_here src 1 section
        else find_section_loop n 1 limit src section)
unfolding find_section_loop
loop_first n limit src section pos_limit =
    let enters : ltb 0 limit ≡ true = ground arith in rw enters

abbrev pub limit_of : Text → Text → ℕ
limit_of line section = (length line + 2 ^ 64 - length section) % 2 ^ 64

find_section-entered :
    (line : Text) (src : Buffer) (section : Text)
    → 0 < limit_of line section
    → find_section line src section ≡ (
        if src 0 == b';'
        then some (neg 1)
        else if src 0 == 0
        then some (neg 2)
        else if src 0 == b'['
        then section_here src 1 section
        else find_section_loop 4095 1 (limit_of line section) src section)
unfolding find_section
find_section-entered line src section h = loop_first 4095 (limit_of line section) src section h

loop_left :
    (n limit : ℕ) (src : Buffer) (section : Text)
    → limit ≡ 0
    → find_section_loop (suc n) 0 limit src section ≡ some (neg 4)
unfolding find_section_loop
loop_left n limit src section h = rw h

find_section-left :
    (line : Text) (src : Buffer) (section : Text)
    → limit_of line section ≡ 0
    → find_section line src section ≡ some (neg 4)
unfolding find_section
find_section-left line src section h = loop_left 4095 (limit_of line section) src section h

find_section-bracket :
    (s section : Text) (b : Buffer)
    → NoZero s
    → length s < 4095
    → length section < 1024
    → 0 < limit_of (b'[' ∷ s) section
    → find_section (b'[' ∷ s) (put_line (b'[' ∷ s) b) section
      ≡ some (if is_named (ipc_strlwr s) (ipc_strlwr section) then pos 0 else neg 3)
unfolding put_line
find_section-bracket s section b nz room short enters =
    find_section-entered (b'[' ∷ s) (put_line (b'[' ∷ s) b) section enters
    ∙ section_here-line s b section nz room short

is_named-header :
    (name t section : Text)
    → ipc_strlwr name ≡ ipc_strlwr section
    → is_named (ipc_strlwr (name ++ b']' ∷ t)) (ipc_strlwr section) ≡ true
unfolding is_named ipc_strlwr
is_named-header name t section same = rw (
  ← same,
  ipc_strlwr-append name (b']' ∷ t),
  strstr-append (ipc_strlwr name) (ipc_strlwr (b']' ∷ t)),
  get_or-append (ipc_strlwr name) (ipc_strlwr t) b']' 0,
)

-- The header of a section: brackets around the name, in any case, and anything behind it.
pub find_section-header :
    (name t section : Text) (b : Buffer)
    → NoZero (name ++ b']' ∷ t)
    → ipc_strlwr name ≡ ipc_strlwr section
    → length (name ++ b']' ∷ t) < 4095
    → length section < 1024
    → find_section (b'[' ∷ (name ++ b']' ∷ t)) (put_line (b'[' ∷ (name ++ b']' ∷ t)) b) section
      ≡ some (pos 0)
find_section-header name t section b nz same room short =
    let lengths : length name ≡ length section =
      sym (length-ipc_strlwr name) ∙ ap length same ∙ length-ipc_strlwr section in
    let enters : 0 < limit_of (b'[' ∷ (name ++ b']' ∷ t)) section =
      omega (arith, length-append name (b']' ∷ t)) in
    find_section-bracket (name ++ b']' ∷ t) section b nz room short enters
    ∙ ap (λ b. some (if b then pos 0 else neg 3)) (is_named-header name t section same)

zero_or_more : (n : ℕ) → (n ≡ 0) ⊎ (0 < n)
zero_or_more zero = inl refl
zero_or_more (suc n) = inr (omega arith)

-- A line that is passed over, whatever the array holds behind it.
abbrev pub Skips : Text → Text → Type 0
Skips section line =
    (b : Buffer) → (c : ℕ) × (find_section line (put_line line b) section ≡ some (negsuc c))

pub Skips-comment : (s section : Text) → Skips section (b';' ∷ s)
unfolding put_line
Skips-comment s section b = elim (zero_or_more (limit_of (b';' ∷ s) section)) [
  | inl left ↦ (3, find_section-left (b';' ∷ s) (put_line (b';' ∷ s) b) section left)
  | inr enters ↦ (0, find_section-entered (b';' ∷ s) (put_line (b';' ∷ s) b) section enters)
]

pub Skips-blank : (section : Text) → Skips section []
unfolding put_line
Skips-blank section b = elim (zero_or_more (limit_of [] section)) [
  | inl left ↦ (3, find_section-left [] (put_line [] b) section left)
  | inr enters ↦ (1, find_section-entered [] (put_line [] b) section enters)
]

pub Skips-section :
    (s section : Text)
    → NoZero s
    → length s < 4095
    → length section < 1024
    → is_named (ipc_strlwr s) (ipc_strlwr section) ≡ false
    → Skips section (b'[' ∷ s)
Skips-section s section nz room short other b = elim (zero_or_more (limit_of (b'[' ∷ s) section)) [
  | inl left ↦ (3, find_section-left (b'[' ∷ s) (put_line (b'[' ∷ s) b) section left)
  | inr enters ↦ (
    2,
    find_section-bracket s section b nz room short enters
        ∙ ap (λ b. some (if b then pos 0 else neg 3)) other,
  )
]
