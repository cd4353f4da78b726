-- ===== src/Prelude/Outcomes.antt =====
-- How a C function ends: it returns, an ASSERT calls abort(), or it does what C leaves undefined
-- (a call or access through NULL, an access outside an array).
use mathlib.Core.Path.{◌≡◌, refl}
use mathlib.Core.Bool.{Bool, true, false}
use mathlib.Core.List.{List, [], ◌∷◌}

pub data Outcome {ℓ} (A : Type ℓ) : Type ℓ where
  ok : A → Outcome A
  abort fault : Outcome A

infixl 5 ◌>>=◌ ◌>>◌
abbrev pub ◌>>=◌ {ℓ κ} : {A : Type ℓ} {B : Type κ} → Outcome A → (A → Outcome B) → Outcome B
ok a >>= f = f a
abort >>= f = abort
fault >>= f = fault

abbrev pub ◌>>◌ {ℓ} : {B : Type ℓ} → Outcome (Unit {0}) → Outcome B → Outcome B
m >> k = m >>= λ _. k

-- The macro ASSERT of include/log.h.
abbrev pub assert : Bool → Outcome (Unit {0})
assert true = ok tt
assert false = abort

-- No undefined behaviour, and what is returned satisfies `P`.
abbrev pub Safe {ℓ} : {A : Type ℓ} → (A → Type 0) → Outcome A → Type 0
Safe P (ok a) = P a
Safe P abort = Unit {0}
Safe P fault = ⊥

-- `P` holds of what is returned, if anything is.
abbrev pub IfReturns {ℓ} : {A : Type ℓ} → (A → Type 0) → Outcome A → Type 0
IfReturns P (ok a) = P a
IfReturns P abort = Unit {0}
IfReturns P fault = Unit {0}

-- A normal return, of a value that satisfies `P`.
abbrev pub Returns {ℓ} : {A : Type ℓ} → (A → Type 0) → Outcome A → Type 0
Returns P (ok a) = P a
Returns P abort = ⊥
Returns P fault = ⊥

module _ {ℓ κ} {A : Type ℓ} {B : Type κ} (P : A → Type 0) (Q : B → Type 0) where
  pub Safe->>= :
      (m : Outcome A) (f : A → Outcome B)
      → Safe P m
      → ((a : A) → P a → Safe Q (f a))
      → Safe Q (m >>= f)
  Safe->>= (ok a) f h k = k a h
  Safe->>= abort f h k = tt
  Safe->>= fault f h k = absurd h

  pub Returns->>= :
      (m : Outcome A) (f : A → Outcome B)
      → Returns P m
      → ((a : A) → P a → Returns Q (f a))
      → Returns Q (m >>= f)
  Returns->>= (ok a) f h k = k a h
  Returns->>= abort f h k = absurd h
  Returns->>= fault f h k = absurd h

pub >>=_assoc {ℓ κ μ} :
    {A : Type ℓ} {B : Type κ} {C : Type μ} (m : Outcome A) (f : A → Outcome B) (g : B → Outcome C)
    → (m >>= f >>= g) ≡ (m >>= λ a. f a >>= g)
>>=_assoc (ok a) f g = refl
>>=_assoc abort f g = refl
>>=_assoc fault f g = refl

pub >>=_ok {ℓ} : {A : Type ℓ} (m : Outcome A) → (m >>= ok) ≡ m
>>=_ok (ok a) = refl
>>=_ok abort = refl
>>=_ok fault = refl

pub Returns-map {ℓ} :
    {A : Type ℓ} (P Q : A → Type 0) (m : Outcome A)
    → Returns P m
    → ((a : A) → P a → Q a)
    → Returns Q m
Returns-map P Q (ok a) h k = k a h
Returns-map P Q abort h k = absurd h
Returns-map P Q fault h k = absurd h

-- The operations of a list, one after the other.
module _ {ℓ κ} {S : Type ℓ} {Op : Type κ} (step : Op → S → Outcome S) where
  unfoldable pub run : List Op → S → Outcome S
  run [] s = ok s
  run (o ∷ os) s = step o s >>= run os

  -- What every operation keeps, every sequence of operations keeps.
  pub run-Safe :
      (P : S → Type 0)
      → ((o : Op) (s : S) → P s → Safe P (step o s))
      → (os : List Op) (s : S) → P s
      → Safe P (run os s)
  unfolding run
  run-Safe P keep [] s h = h
  run-Safe P keep (o ∷ os) s h =
      Safe->>= P P (step o s) (run os) (keep o s h) (λ t k. run-Safe P keep os t k)

pub IfReturns->>= {ℓ κ} :
    {A : Type ℓ} {B : Type κ} (P : A → Type 0) (Q : B → Type 0) (m : Outcome A) (f : A → Outcome B)
    → IfReturns P m
    → ((a : A) → P a → IfReturns Q (f a))
    → IfReturns Q (m >>= f)
IfReturns->>= P Q (ok a) f h k = k a h
IfReturns->>= P Q abort f h k = tt
IfReturns->>= P Q fault f h k = tt

pub Safe-IfReturns {ℓ} : {A : Type ℓ} (P : A → Type 0) (m : Outcome A) → Safe P m → IfReturns P m
Safe-IfReturns P (ok a) h = h
Safe-IfReturns P abort h = tt
Safe-IfReturns P fault h = absurd h

pub IfReturns-map {ℓ} :
    {A : Type ℓ} (P Q : A → Type 0) (m : Outcome A)
    → IfReturns P m
    → ((a : A) → P a → Q a)
    → IfReturns Q m
IfReturns-map P Q (ok a) h k = k a h
IfReturns-map P Q abort h k = tt
IfReturns-map P Q fault h k = tt
