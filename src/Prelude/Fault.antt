-- ===== src/Prelude/Fault.antt =====
-- Programs over a state that may fault: an access outside an object, a call through a null
-- pointer, or an assertion that fails.
use mathlib.Core.Path.{◌≡◌, refl}
use mathlib.Core.Bool.{Bool, true, false}
use mathlib.Core.Option.{Option, none, some}

-- `none` is the fault.
abbrev pub M : Type 0 → Type 0 → Type 0
M S A = S → Option (A × S)

infixl 5 ◌>>=◌ ◌>>◌
abbrev pub ◌>>=◌ : {S A B : Type 0} → M S A → (A → M S B) → M S B
◌>>=◌ m f s = elim (m s) [ none ↦ none | some (a, s') ↦ f a s' ]

abbrev pub ◌>>◌ : {S B : Type 0} → M S (Unit {0}) → M S B → M S B
◌>>◌ m k s = elim (m s) [ none ↦ none | some (_, s') ↦ k s' ]

abbrev pub pure : {S A : Type 0} → A → M S A
pure a s = some (a, s)

abbrev pub fault : {S A : Type 0} → M S A
fault s = none

-- `assert(b)`
abbrev pub assert : {S : Type 0} → Bool → M S (Unit {0})
assert true s = some (tt, s)
assert false s = none

-- `if (b) { m }`
abbrev pub when : {S : Type 0} → Bool → M S (Unit {0}) → M S (Unit {0})
when true m = m
when false m = pure tt

abbrev pub get : {S : Type 0} → M S S
get s = some (s, s)

abbrev pub modify : {S : Type 0} → (S → S) → M S (Unit {0})
modify f s = some (tt, f s)

-- The run ends without a fault, and its value and last state satisfy `P`.
abbrev pub Returns : {S A : Type 0} → (A → S → Type 0) → Option (A × S) → Type 0
Returns P none = ⊥
Returns P (some (a, s)) = P a s

-- A sequence ends well if its first part does, and the rest does from wherever that part ends.
pub Returns-bind :
    {S A B : Type 0} (P : A → S → Type 0) (Q : B → S → Type 0) (m : M S A) (f : A → M S B) (s : S)
    → Returns P (m s)
    → ((a : A) (s' : S) → P a s' → Returns Q (f a s'))
    → Returns Q ((m >>= f) s)
Returns-bind {S} {A} {B} P Q m f s h k = from (m s) h
  where
    from :
        (r : Option (A × S))
        → Returns P r
        → Returns Q (elim r as (λ x. Option (B × S)) [ none ↦ none | some (a, s') ↦ f a s' ])
    from none h = absurd h
    from (some (a, s')) h = k a s' h

pub Returns-weaken :
    {S A : Type 0} (P Q : A → S → Type 0) (r : Option (A × S))
    → Returns P r
    → ((a : A) (s : S) → P a s → Q a s)
    → Returns Q r
Returns-weaken P Q none h k = h
Returns-weaken P Q (some (a, s)) h k = k a s h

pub Returns-both :
    {S A : Type 0} (P Q : A → S → Type 0) (r : Option (A × S))
    → Returns P r
    → Returns Q r
    → Returns (λ a s. P a s × Q a s) r
Returns-both P Q none h k = h
Returns-both P Q (some (a, s)) h k = (h, k)

-- If the run does not fault, its value and last state satisfy `P`.
abbrev pub IfReturns : {S A : Type 0} → (A → S → Type 0) → Option (A × S) → Type 0
IfReturns P none = Unit
IfReturns P (some (a, s)) = P a s

pub IfReturns-bind :
    {S A B : Type 0} (P : A → S → Type 0) (Q : B → S → Type 0) (m : M S A) (f : A → M S B) (s : S)
    → IfReturns P (m s)
    → ((a : A) (s' : S) → P a s' → IfReturns Q (f a s'))
    → IfReturns Q ((m >>= f) s)
IfReturns-bind {S} {A} {B} P Q m f s h k = from (m s) h
  where
    from :
        (r : Option (A × S))
        → IfReturns P r
        → IfReturns Q (elim r as (λ x. Option (B × S)) [ none ↦ none | some (a, s') ↦ f a s' ])
    from none h = tt
    from (some (a, s')) h = k a s' h

pub IfReturns-weaken :
    {S A : Type 0} (P Q : A → S → Type 0) (r : Option (A × S))
    → IfReturns P r
    → ((a : A) (s : S) → P a s → Q a s)
    → IfReturns Q r
IfReturns-weaken P Q none h k = tt
IfReturns-weaken P Q (some (a, s)) h k = k a s h

-- A run that ends well ends somewhere.
pub Returns-runs :
    {S : Type 0} (P : Unit {0} → S → Type 0) (r : Option (Unit {0} × S))
    → Returns P r
    → (s : S) × (r ≡ some (tt, s))
Returns-runs P none h = absurd h
Returns-runs P (some (tt, s)) h = (s, refl)
