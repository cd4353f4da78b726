-- ===== src/Prelude/Bytes.antt =====
-- Single bits of a byte, as arithmetic: every value is checked by evaluation.
use Prim.Native.Nat.{ℕ, zero, suc, ◌+◌, ◌-◌, ◌%◌, ◌<◌, bit_and, bit_or}
use mathlib.Core.Path.{◌≡◌, refl}
use mathlib.Core.Bool.{Bool, true, ◌&&◌}
use native.Mathlib.Omega.{arith}
use kvmulate.Prelude.Tests.{◌==◌, ==_iff}

unfoldable pub every : ℕ → (ℕ → Bool) → Bool
every zero p = true
every (suc n) p = p n && every n p

pub every_lem : (n : ℕ) (p : ℕ → Bool) (x : ℕ) → every n p ≡ true → x < n → p x ≡ true
unfolding every
every_lem zero p x h lt = absurd (omega arith)
every_lem (suc n) p x h lt = ground (arith, every_lem n p x)

set_bit0_table : every 256 (λ x. bit_or x 1 == x + 1 - x % 2) ≡ true
unfolding every
set_bit0_table = refl

pub set_bit0 : (x : ℕ) → x < 256 → bit_or x 1 ≡ x + 1 - x % 2
set_bit0 x h = (==_iff _ _).0 (every_lem 256 _ x set_bit0_table h)

clear_bit0_table : every 256 (λ x. bit_and x 0xFE == x - x % 2) ≡ true
unfolding every
clear_bit0_table = refl

pub clear_bit0 : (x : ℕ) → x < 256 → bit_and x 0xFE ≡ x - x % 2
clear_bit0 x h = (==_iff _ _).0 (every_lem 256 _ x clear_bit0_table h)

set_bit7_table : every 256 (λ x. bit_or x 0x80 == x % 128 + 128) ≡ true
unfolding every
set_bit7_table = refl

pub set_bit7 : (x : ℕ) → x < 256 → bit_or x 0x80 ≡ x % 128 + 128
set_bit7 x h = (==_iff _ _).0 (every_lem 256 _ x set_bit7_table h)
