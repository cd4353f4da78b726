-- ===== src/Prelude/Masks.antt =====
-- The masks of the port handlers at variables, as arithmetic.
use Prim.Native.Nat.{ℕ, ◌+◌, ◌*◌, ◌/◌, ◌%◌, ◌<◌, bit_and}
use mathlib.Core.Path.{◌≡◌}
use native.Mathlib.Omega.{arith}
use kvmulate.Prelude.Bits.{and_split, and_mask, bit_and-zero}

pub mask_all : (p : ℕ) → p < 65536 → bit_and p 0xFFFF ≡ p
mask_all p h = omega (arith, and_mask 16 p)

pub mask_2 : (p : ℕ) → p < 65536 → bit_and p 0xFFFE ≡ p / 2 * 2
mask_2 p h =
    omega (arith, and_split 1 p 32767 0 (omega arith), and_mask 15 (p / 2), bit_and-zero (p % 2))

pub mask_4 : (p : ℕ) → p < 65536 → bit_and p 0xFFFC ≡ p / 4 * 4
mask_4 p h =
    omega (arith, and_split 2 p 16383 0 (omega arith), and_mask 14 (p / 4), bit_and-zero (p % 4))

pub mask_8 : (p : ℕ) → p < 65536 → bit_and p 0xFFF8 ≡ p / 8 * 8
mask_8 p h =
    omega (arith, and_split 3 p 8191 0 (omega arith), and_mask 13 (p / 8), bit_and-zero (p % 8))

pub mask_16 : (p : ℕ) → p < 65536 → bit_and p 0xFFF0 ≡ p / 16 * 16
mask_16 p h =
    omega (arith, and_split 4 p 4095 0 (omega arith), and_mask 12 (p / 16), bit_and-zero (p % 16))

pub mask_32 : (p : ℕ) → p < 65536 → bit_and p 0xFFE0 ≡ p / 32 * 32
mask_32 p h =
    omega (arith, and_split 5 p 2047 0 (omega arith), and_mask 11 (p / 32), bit_and-zero (p % 32))

pub mask_low_byte : (p : ℕ) → bit_and p 0xFE ≡ p % 256 / 2 * 2
mask_low_byte p =
    omega (arith, and_split 1 p 127 0 (omega arith), and_mask 7 (p / 2), bit_and-zero (p % 2))

pub mask_ata : (p : ℕ) → p < 65536 → bit_and p 0xFDF8 ≡ p / 1024 * 1024 + p % 512 / 8 * 8
mask_ata p h = omega (
  arith,
  and_split 10 p 63 0x1F8 (omega arith),
  and_mask 6 (p / 1024),
  and_split 3 (p % 1024) 63 0 (omega arith),
  and_mask 6 (p % 1024 / 8),
  bit_and-zero (p % 1024 % 8),
)
