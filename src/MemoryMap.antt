-- ===== src/MemoryMap.antt =====
-- system.c: the regions of guest memory that map_ram hands to the kernel, in the order of its calls of
-- sys_map. Each is backed by an anonymous mapping of its size.
use kvmulate.Prelude.{ℕ, ◌+◌, ◌-◌, ◌*◌, ◌%◌, ◌^◌, List, [], ◌∷◌, leb, if◌then◌else◌}

pub record MemoryRegion : Type 0 where
  pub guest_phys_addr : ℕ
  pub memory_size : ℕ

abbrev pub region : ℕ → ℕ → MemoryRegion
region addr size = record { guest_phys_addr = addr; memory_size = size }

-- A uint64 of megabytes that a uint32 counts.
abbrev pub ram_end : ℕ → ℕ
ram_end megs = megs * 1024 * 1024

-- Sizes are computed as uint64 and wrap.
unfoldable pub map_ram : ℕ → List MemoryRegion
map_ram megs =
    region 0x0 0xA0000
    ∷ region 0xC0000 0x20000
    ∷ (if leb (ram_end megs) 0xE0000000
        then region 0x100000 ((ram_end megs + 2 ^ 64 - 0x100000) % 2 ^ 64) ∷ []
        else region 0x100000 (0xE0000000 - 0x100000)
          ∷ region 0x100000000 ((ram_end megs + 2 ^ 64 - 0xE0100000) % 2 ^ 64)
          ∷ [])

abbrev pub end_of : MemoryRegion → ℕ
end_of r = r.guest_phys_addr + r.memory_size

-- The third region, from 1 MB on, and the size of the fourth, 0 if there is none.
abbrev pub low_extended : List MemoryRegion → MemoryRegion
low_extended (a ∷ b ∷ c ∷ rest) = c
low_extended _ = region 0 0

abbrev pub above_hole : List MemoryRegion → ℕ
above_hole (a ∷ b ∷ c ∷ d ∷ rest) = d.memory_size
above_hole _ = 0
