-- ===== src/LowMem.antt =====
-- system.c: the guest's memory below 1 MB as the DMA controller reaches it (sys_getLowMem). map_ram
-- gives it two regions, 0xA0000 bytes at 0 and 0x20000 bytes at 0xC0000.
use kvmulate.Prelude.{
  ℕ, ◌+◌, ◌-◌, ◌%◌, ◌^◌, Outcome, ok, abort, fault, ltb, leb, if◌then◌else◌, Cells, copy,
}

pub record LowMem : Type 0 where
  pub low : Cells
  pub high : Cells

pub data Region : Type 0 where
  low_ram high_ram : Region

abbrev pub region_size : Region → ℕ
region_size low_ram = 0xA0000
region_size high_ram = 0x20000

-- A pointer: a region and the offset into it. `addr - 0xC0000` is computed in 32 bits, also below
-- 0xC0000.
unfoldable pub sys_get_low_mem : ℕ → Outcome (Region × ℕ)
sys_get_low_mem addr =
    if ltb addr 0xA0000
    then ok (low_ram, addr)
    else if leb addr 0xFFFFF
    then ok (high_ram, (addr + 2 ^ 32 - 0xC0000) % 2 ^ 32)
    else abort

abbrev write_region : Region → ℕ → Cells → ℕ → LowMem → LowMem
write_region low_ram at source n m = record m { low = copy m.low at source 0 n }
write_region high_ram at source n m = record m { high = copy m.high at source 0 n }

-- memcpy(pDest,source,n), which must stay inside the region.
unfoldable pub copy_to_mem : Region × ℕ → Cells → ℕ → LowMem → Outcome LowMem
copy_to_mem (region, at) source n m =
    if leb (at + n) (region_size region) then ok (write_region region at source n m) else fault

-- What the guest sees at a physical address of either region.
abbrev pub guest_byte : LowMem → ℕ → ℕ
guest_byte m addr = if ltb addr 0xA0000 then m.low addr else m.high (addr - 0xC0000)
