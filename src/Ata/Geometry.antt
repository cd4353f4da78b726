-- ===== src/Ata/Geometry.antt =====
-- devices/x86/ata/controller.c: the capacity and the geometry in the IDENTIFY data.
use kvmulate.Prelude.{ℕ, ◌+◌, ◌*◌, ◌/◌, ◌%◌, ◌^◌, ◌≤◌, ◌<◌, ◌≡◌, refl, arith, ◌⊎◌, inl, inr}
use kvmulate.Prelude.Bits.{or_fields}
use kvmulate.Files.{File}
use kvmulate.Ata.{AtaDev}
use kvmulate.Ata.Identify.{build_identify_data, dev_num_sectors, heads, cylinders, swap_word}

-- The words that depend on the size of the disk.
sized_words :
    (d : AtaDev)
    → let w = (build_identify_data d).identify in
      let n = dev_num_sectors d.backingfile in
      (w 57 ≡ n % 65536)
      × (w 58 ≡ n / 65536 % 65536)
      × (w 60 ≡ n % 65536)
      × (w 61 ≡ n / 65536 % 65536)
      × (w 1 ≡ cylinders n)
      × (w 3 ≡ heads n)
      × (w 6 ≡ 63)
unfolding build_identify_data
sized_words d = (refl, refl, refl, refl, refl, refl, refl)

sectors-lt : (f : File) → dev_num_sectors f < 2 ^ 32
unfolding dev_num_sectors
sectors-lt f = omega arith

heads_cases : (n : ℕ) → (heads n ≡ 16) ⊎ (heads n ≡ 15)
unfolding heads
heads_cases n = ground arith

cylinders_lem :
    (n : ℕ)
    → (cylinders n * (heads n * 63) ≤ n)
      × ((n < (cylinders n + 1) * (heads n * 63)) ⊎ (65536 * (heads n * 63) ≤ n))
unfolding cylinders
cylinders_lem n = elim (heads_cases n) [
  | inl e ↦ rw e (omega arith, ground arith)
  | inr e ↦ rw e (omega arith, ground arith)
]

-- The capacity that IDENTIFY reports, in both places, is the number of whole sectors of the disk
-- file, modulo 2 ^ 32. Its cylinders, heads and sectors never reach beyond the disk, and for a disk
-- of less than 65536 cylinders leave out less than one cylinder.
pub build_identify_data_lem :
    (d : AtaDev)
    → let w = (build_identify_data d).identify in
      let n = dev_num_sectors d.backingfile in
      (w 60 + 65536 * w 61 ≡ n)
      × (w 57 + 65536 * w 58 ≡ n)
      × (w 1 * (w 3 * w 6) ≤ n)
      × ((n < (w 1 + 1) * (w 3 * w 6)) ⊎ (65536 * (w 3 * w 6) ≤ n))
build_identify_data_lem d =
    let n : ℕ = dev_num_sectors d.backingfile in
    let (w57, w58, w60, w61, w1, w3, w6) = sized_words d in
    let small : n < 2 ^ 32 = sectors-lt d.backingfile in
    let (below, above) = cylinders_lem n in
    (
      rw (w60, w61) (omega arith),
      rw (w57, w58) (omega arith),
      rw (w1, w3, w6) below,
      rw (w1, w3, w6) above,
    )

swap_word_lem : (w : ℕ) → swap_word w ≡ w % 256 * 256 + w / 256 % 256
unfolding swap_word
swap_word_lem w = or_fields 8 (w % 256) (w / 256 % 256) (omega arith)

-- The swap of the two bytes of a word undoes itself.
pub swap_word_twice : (w : ℕ) → w < 65536 → swap_word (swap_word w) ≡ w
swap_word_twice w h = omega (arith, swap_word_lem w, swap_word_lem (swap_word w))
