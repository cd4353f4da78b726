-- ===== src/Prelude/Parts.antt =====
-- A part of a larger state: a device's own state within that of the machine.
use mathlib.Core.Path.{◌≡◌}

pub record Part (T : Type 0) (S : Type 0) : Type 0 where
  pub get : T → S
  pub set : S → T → T

-- What was put into the part is what it holds.
abbrev pub Keeps : {T S : Type 0} → Part T S → Type 0
Keeps {T} {S} part = (s : S) (t : T) → part.get (part.set s t) ≡ s
