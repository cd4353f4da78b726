-- ===== src/Cmos/Memory.antt =====
-- devices/x86/cmos.c and system.c: the memory that the CMOS reports is the memory that map_ram maps.
use kvmulate.Prelude.{
  ℕ, ◌+◌, ◌*◌, ◌/◌, ◌%◌, ◌^◌, ◌<◌, ◌≤◌, ◌≡◌, refl, Outcome, ok, ◌>>=◌, arith, Returns, Returns-map,
}
use kvmulate.MemoryMap.{map_ram, ram_end, end_of, low_extended, above_hole}
use kvmulate.Cmos.{
  Tm, Cmos, cmos_inb, cmos_outb, read_memory, extended_memory, high_memory, x86_cmos_init,
}
use kvmulate.Cmos.Clock.{read_register}

-- The guest's value of two or three registers, in units of 64 KB.
pub read_extended : Tm → Cmos → Outcome ℕ
read_extended t c = do
  low ← read_register t 0x34 c
  high ← read_register t 0x35 low.1
  ok (low.0 + 256 * high.0)

pub read_high : Tm → Cmos → Outcome ℕ
read_high t c = do
  low ← read_register t 0x5B c
  mid ← read_register t 0x5C low.1
  high ← read_register t 0x5D mid.1
  ok (low.0 + 256 * mid.0 + 65536 * high.0)

extended_memory_index :
    (i : ℕ) (c : Cmos) → extended_memory (record c { indexreg = i }) ≡ extended_memory c
unfolding extended_memory
extended_memory_index i c = refl

high_memory_index : (i : ℕ) (c : Cmos) → high_memory (record c { indexreg = i }) ≡ high_memory c
unfolding high_memory
high_memory_index i c = refl

read_extended_lem :
    (t : Tm) (c : Cmos) → Returns (λ v. v ≡ extended_memory c / 65536 % 65536) (read_extended t c)
unfolding read_extended read_register cmos_inb cmos_outb read_memory
read_extended_lem t c = omega (arith, extended_memory_index 0x34 c, extended_memory_index 0x35 c)

read_high_lem :
    (t : Tm) (c : Cmos) → Returns (λ v. v ≡ high_memory c / 65536 % 2 ^ 24) (read_high t c)
unfolding read_high read_register cmos_inb cmos_outb read_memory
read_high_lem t c =
    omega (arith, high_memory_index 0x5B c, high_memory_index 0x5C c, high_memory_index 0x5D c)

-- With at least 16 MB and less than 1 TB of memory, the registers 0x34 and 0x35 give the units of 64 KB
-- from 16 MB to the end of the region that is mapped at 1 MB, and the registers 0x5B to 0x5D those of
-- the region that is mapped at 4 GB, or 0 if there is none.
pub cmos-map_ram :
    (t : Tm) (megs : ℕ)
    → 16 ≤ megs
    → megs < 2 ^ 20
    → Returns
        (λ v. 2 ^ 24 + v * 65536 ≡ end_of (low_extended (map_ram megs)))
        (read_extended t (x86_cmos_init (ram_end megs)))
      × Returns
          (λ v. v * 65536 ≡ above_hole (map_ram megs))
          (read_high t (x86_cmos_init (ram_end megs)))
unfolding extended_memory high_memory map_ram
cmos-map_ram t megs enough limit = (
  Returns-map _ _ (read_extended t (x86_cmos_init (ram_end megs)))
      (read_extended_lem t (x86_cmos_init (ram_end megs))) (λ v e. ground (arith, e)),
  Returns-map _ _ (read_high t (x86_cmos_init (ram_end megs)))
      (read_high_lem t (x86_cmos_init (ram_end megs))) (λ v e. ground (arith, e)),
)
