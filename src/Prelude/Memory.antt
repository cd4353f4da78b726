-- ===== src/Prelude/Memory.antt =====
-- C arrays and blocks of memory: a function from the index, and a size that every access is
-- checked against. A block copy is described index by index.
use mathlib.Core.Option.{Option, none, some}
use Prim.Native.Nat.{ℕ, zero, suc, ◌+◌, ◌-◌, ◌*◌, ◌/◌, ◌%◌, ◌<◌}
use mathlib.Core.Path.{◌≡◌}
use mathlib.Core.Bool.{◌&&◌}
use mathlib.Core.List.{List, [], ◌∷◌}
use native.Mathlib.Omega.{arith}
use kvmulate.Prelude.Tests.{ltb, leb, ◌==◌, if◌then◌else◌}
use kvmulate.Prelude.Outcomes.{Outcome, ok, fault}

abbrev pub Cells : Type 0
Cells = ℕ → ℕ

abbrev pub zeros : Cells
zeros i = 0

abbrev pub update : Cells → ℕ → ℕ → Cells
update a i v j = if i == j then v else a j

-- A read and a write of `a[i]`, where `a` has `size` elements.
abbrev pub fetch : ℕ → Cells → ℕ → Outcome ℕ
fetch size a i = if ltb i size then ok (a i) else fault

abbrev pub store : ℕ → Cells → ℕ → ℕ → Outcome Cells
store size a i v = if ltb i size then ok (update a i v) else fault

-- memset and memcpy on `n` elements from index `i` on.
abbrev pub fill : Cells → ℕ → ℕ → ℕ → Cells
fill a i n v j = if leb i j && ltb j (i + n) then v else a j

abbrev pub copy : Cells → ℕ → Cells → ℕ → ℕ → Cells
copy dst i src k n j = if leb i j && ltb j (i + n) then src (k + (j - i)) else dst j

-- A little-endian `uint16` or `uint32` at a byte address.
abbrev pub get16 : Cells → ℕ → ℕ
get16 a i = a i + a (i + 1) * 256

abbrev pub get32 : Cells → ℕ → ℕ
get32 a i = get16 a i + get16 a (i + 2) * 65536

abbrev pub put16 : Cells → ℕ → ℕ → Cells
put16 a i v = update (update a i (v % 256)) (i + 1) (v / 256 % 256)

abbrev pub put32 : Cells → ℕ → ℕ → Cells
put32 a i v = put16 (put16 a i (v % 65536)) (i + 2) (v / 65536 % 65536)

abbrev pub IsBytes : Cells → Type 0
IsBytes a = (i : ℕ) → a i < 256

pub get16-put16 : (a : Cells) (i v : ℕ) → v < 65536 → get16 (put16 a i v) i ≡ v
get16-put16 a i v h = ground arith

pub get32-put32 : (a : Cells) (i v : ℕ) → v < 4294967296 → get32 (put32 a i v) i ≡ v
get32-put32 a i v h = ground arith

abbrev pub length {ℓ} : {A : Type ℓ} → List A → ℕ
length [] = 0
length (x ∷ xs) = suc (length xs)

abbrev pub get_elem? {ℓ} : {A : Type ℓ} → List A → ℕ → Option A
get_elem? [] i = none
get_elem? (x ∷ xs) zero = some x
get_elem? (x ∷ xs) (suc i) = get_elem? xs i
