-- ===== src/Driver/Table/Cells.antt =====
-- A list of the driver with the objects that its pointers lead to: the abstract view of a table, as
-- a list of cells, and what it means that the memory holds it.
use gipcy.Base.{
  length, ap, suc, ◌≡◌, refl, ◌≢◌, Bool, true, false, ◌||◌, List, [], ◌∷◌, ◌++◌, Option, none, some,
  arith, ◌==◌, same_text, if◌then◌else◌,
}
use gipcy.Driver.Ioctl.{Ptr, null, Name}
use gipcy.Driver.Objects.{Object}
use gipcy.Driver.Machine.{Memory, World, write, ok}
use gipcy.Driver.Struct.{Struct, load}

module _ {A : Type 0} where
  abbrev pub addresses : List (Ptr × A) → List Ptr
  addresses [] = []
  addresses ((p, a) ∷ cs) = p ∷ addresses cs

  abbrev pub has : Ptr → List (Ptr × A) → Bool
  has q [] = false
  has q ((p, a) ∷ cs) = p == q || has q cs

  -- The object at an address.
  abbrev pub at : Ptr → List (Ptr × A) → Option A
  at q [] = none
  at q ((p, a) ∷ cs) = if p == q then some a else at q cs

  abbrev pub replace : Ptr → A → List (Ptr × A) → List (Ptr × A)
  replace q b [] = []
  replace q b ((p, a) ∷ cs) = if p == q then (p, b) ∷ cs else (p, a) ∷ replace q b cs

  abbrev pub remove : Ptr → List (Ptr × A) → List (Ptr × A)
  remove q [] = []
  remove q ((p, a) ∷ cs) = if p == q then cs else (p, a) ∷ remove q cs

  pub length-addresses : (cs : List (Ptr × A)) → length (addresses cs) ≡ length cs
  length-addresses [] = refl
  length-addresses ((p, a) ∷ cs) = ap suc (length-addresses cs)

  pub at_of_has : (q : Ptr) (cs : List (Ptr × A)) → has q cs ≡ false → at q cs ≡ none
  at_of_has q [] h = refl
  at_of_has q ((p, a) ∷ cs) h = ground (arith, at_of_has q cs)

  pub has_of_at : (q : Ptr) (cs : List (Ptr × A)) {a : A} → at q cs ≡ some a → has q cs ≡ true
  has_of_at q [] h = cc
  has_of_at q ((p, b) ∷ cs) {a} h = ground (arith, has_of_at q cs {a = a})

  pub has-append :
      (r q : Ptr) (b : A) (cs : List (Ptr × A))
      → has r cs ≡ false
      → q ≢ r
      → has r (cs ++ (q, b) ∷ []) ≡ false
  has-append r q b [] h ne = ground arith
  has-append r q b ((p, a) ∷ cs) h ne = ground (arith, has-append r q b cs)

  pub addresses-replace :
      (q : Ptr) (b : A) (cs : List (Ptr × A)) → addresses (replace q b cs) ≡ addresses cs
  addresses-replace q b [] = refl
  addresses-replace q b ((p, a) ∷ cs) = ground (arith, addresses-replace q b cs)

  pub replace-at : (q : Ptr) (a : A) (cs : List (Ptr × A)) → at q cs ≡ some a → replace q a cs ≡ cs
  replace-at q a [] e = refl
  replace-at q a ((p, b) ∷ cs) e = ground (arith, replace-at q a cs)

  pub at-replace :
      (q : Ptr) (a b : A) (cs : List (Ptr × A)) → at q cs ≡ some a → at q (replace q b cs) ≡ some b
  at-replace q a b [] e = cc
  at-replace q a b ((p, c) ∷ cs) e = ground (arith, at-replace q a b cs)

  pub replace-replace :
      (q : Ptr) (a b : A) (cs : List (Ptr × A)) → replace q b (replace q a cs) ≡ replace q b cs
  replace-replace q a b [] = refl
  replace-replace q a b ((p, c) ∷ cs) = ground (arith, replace-replace q a b cs)

  pub addresses-append :
      (q : Ptr) (b : A) (cs : List (Ptr × A))
      → addresses (cs ++ (q, b) ∷ []) ≡ addresses cs ++ q ∷ []
  addresses-append q b [] = refl
  addresses-append q b ((p, a) ∷ cs) = ap (◌∷◌ p) (addresses-append q b cs)

  pub has-replace : (r q : Ptr) (b : A) (cs : List (Ptr × A)) → has r (replace q b cs) ≡ has r cs
  has-replace r q b [] = refl
  has-replace r q b ((p, a) ∷ cs) = ground (arith, has-replace r q b cs)

  pub has-remove :
      (r q : Ptr) (cs : List (Ptr × A)) → has r cs ≡ false → has r (remove q cs) ≡ false
  has-remove r q [] h = refl
  has-remove r q ((p, a) ∷ cs) h = ground (arith, has-remove r q cs)

module _ {A : Type 0} (S : Struct A) where
  -- Each address holds its object, none is NULL and none comes twice.
  abbrev pub Holds : Memory → List (Ptr × A) → Type 0
  Holds m [] = Unit {0}
  Holds m ((p, a) ∷ cs) = (p ≢ null) × (m p ≡ some (S.inject a)) × (has p cs ≡ false) × Holds m cs

  -- The first cell with a name.
  abbrev pub named : Name → List (Ptr × A) → Option (Ptr × A)
  named name [] = none
  named name ((p, a) ∷ cs) = if same_text (S.name a) name then some (p, a) else named name cs

  pub load-ok :
      (p : Ptr) (a : A) (w : World) → p ≢ null → w.mem p ≡ some (S.inject a) → load S p w ≡ ok a w
  unfolding load
  load-ok p a w ne e = ground (arith, S.view-inject a)

  pub Holds-at :
      (m : Memory) (q : Ptr) (cs : List (Ptr × A)) {a : A}
      → Holds m cs
      → at q cs ≡ some a
      → (q ≢ null) × (m q ≡ some (S.inject a))
  Holds-at m q [] h e = cc
  Holds-at m q ((p, b) ∷ cs) {a} h e = ground (arith, Holds-at m q cs {a = a} h.3)

  pub at_of_named :
      (m : Memory) (name : Name) (cs : List (Ptr × A)) {p : Ptr} {a : A}
      → Holds m cs
      → named name cs ≡ some (p, a)
      → at p cs ≡ some a
  at_of_named m name [] h e = cc
  at_of_named m name ((q, b) ∷ cs) {p} {a} h e =
      ground (arith, at_of_named m name cs {p = p} {a = a} h.3, has_of_at p cs {a = a})

  -- A write elsewhere changes nothing.
  pub Holds-write :
      (m : Memory) (q : Ptr) (c : Option Object) (cs : List (Ptr × A))
      → has q cs ≡ false
      → Holds m cs
      → Holds (write m q c) cs
  unfolding write
  Holds-write m q c [] out h = tt
  Holds-write m q c ((p, a) ∷ cs) out h = ground (arith, Holds-write m q c cs)

  pub Holds-replace :
      (m : Memory) (q : Ptr) (b : A) (cs : List (Ptr × A))
      → Holds m cs
      → Holds (write m q (some (S.inject b))) (replace q b cs)
  unfolding write
  Holds-replace m q b [] h = tt
  Holds-replace m q b ((p, a) ∷ cs) h = ground (
    arith,
    Holds-replace m q b cs h.3,
    Holds-write m q (some (S.inject b)) cs,
    has-replace p q b cs,
  )

  pub Holds-remove :
      (m : Memory) (q : Ptr) (cs : List (Ptr × A))
      → Holds m cs
      → Holds (write m q none) (remove q cs)
  unfolding write
  Holds-remove m q [] h = tt
  Holds-remove m q ((p, a) ∷ cs) h =
      ground (arith, Holds-remove m q cs h.3, Holds-write m q none cs, has-remove p q cs)

  -- A new object behind the others.
  pub Holds-append :
      (m : Memory) (q : Ptr) (b : A) (cs : List (Ptr × A))
      → q ≢ null
      → has q cs ≡ false
      → Holds m cs
      → Holds (write m q (some (S.inject b))) (cs ++ (q, b) ∷ [])
  unfolding write
  Holds-append m q b [] ne out h = (ne, ground arith, refl, tt)
  Holds-append m q b ((p, a) ∷ cs) ne out h = (
    h.0,
    ground arith,
    has-append p q b cs h.2 (ground arith),
    Holds-append m q b cs ne (ground arith) h.3,
  )

  -- An address that holds nothing, or an object of another type, is not in the table.
  pub has_of_none :
      (m : Memory) (q : Ptr) (cs : List (Ptr × A)) → Holds m cs → m q ≡ none → has q cs ≡ false
  has_of_none m q [] h e = refl
  has_of_none m q ((p, a) ∷ cs) h e = ground (arith, has_of_none m q cs h.3)

  pub has_of_view :
      (m : Memory) (q : Ptr) (o : Object) (cs : List (Ptr × A))
      → Holds m cs
      → m q ≡ some o
      → S.view o ≡ none
      → has q cs ≡ false
  has_of_view m q o [] h e v = refl
  has_of_view m q o ((p, a) ∷ cs) h e v = ground (arith, has_of_view m q o cs h.3, S.view-inject a)
