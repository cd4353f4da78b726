-- ===== src/Vga/Ram.antt =====
-- devices/x86/vga/ram.c: the window of 128 KB at 0xA0000, behind which four planes of that size stand.
-- The functions of a memory device are given the whole address.
pub mod Planes
use kvmulate.Prelude.{
  ℕ, zero, suc, ◌+◌, ◌-◌, ◌*◌, ◌/◌, ◌%◌, ◌^◌, some, Outcome, ok, fault, ◌>>=◌, ltb, ◌==◌,
  if◌then◌else◌, Cells, fetch, store, get16, get32, put16, put32,
}
use kvmulate.Mmio.{MmioDevice, get64}
use kvmulate.Vga.{Vga}

-- The context with pVRAM: of the six planes of 0x20000 bytes the first four are used.
pub record Screen : Type 0 where
  pub vga : Vga
  pub planes : ℕ → Cells

abbrev pub plane_size : ℕ
plane_size = 0x20000

abbrev pub vram_base : ℕ
vram_base = 0xA0000

-- address - pDev->base, as a uint64
abbrev pub vram_offset : ℕ → ℕ
vram_offset address = (address + 2 ^ 64 - vram_base) % 2 ^ 64

-- `n` bytes from an offset lie in a plane.
abbrev pub in_plane : ℕ → ℕ → Outcome ℕ
in_plane offset n = if ltb (offset + n) (plane_size + 1) then ok offset else fault

unfoldable pub readb : Screen → ℕ → Outcome (ℕ × Screen)
readb s address = in_plane (vram_offset address) 1 >>= λ i. ok (s.planes 0 i, s)

unfoldable pub readw : Screen → ℕ → Outcome (ℕ × Screen)
readw s address = in_plane (vram_offset address) 2 >>= λ i. ok (get16 (s.planes 0) i, s)

unfoldable pub readl : Screen → ℕ → Outcome (ℕ × Screen)
readl s address = in_plane (vram_offset address) 4 >>= λ i. ok (get32 (s.planes 0) i, s)

abbrev pub readq : Screen → ℕ → Outcome (ℕ × Screen)
readq s address = in_plane (vram_offset address) 8 >>= λ i. ok (get64 (s.planes 0) i, s)

abbrev pub set_plane : (ℕ → Cells) → ℕ → Cells → ℕ → Cells
set_plane planes p c q = if q == p then c else planes q

-- The rounds of the loop for the planes from `p` on, `n` of them: a plane is written to if its bit of
-- the map mask is set.
unfoldable pub write_planes :
    ℕ → ℕ → ℕ → (Cells → Outcome Cells) → (ℕ → Cells) → Outcome (ℕ → Cells)
write_planes zero p map_mask put planes = ok planes
write_planes (suc n) p map_mask put planes =
    (if map_mask / 2 ^ p % 2 == 1
      then (put (planes p) >>= λ c. ok (set_plane planes p c))
      else ok planes)
    >>= write_planes n (p + 1) map_mask put

abbrev pub put_planes : (Cells → Outcome Cells) → Screen → Outcome Screen
put_planes put s =
    write_planes 4 0 (s.vga.seq_reg 2) put s.planes >>= λ planes. ok (record s { planes = planes })

unfoldable pub writeb : Screen → ℕ → ℕ → Outcome Screen
unfolding write_planes
writeb s address val = put_planes (λ c. store plane_size c (vram_offset address) val) s

unfoldable pub writew : Screen → ℕ → ℕ → Outcome Screen
unfolding write_planes
writew s address val =
    put_planes (λ c. in_plane (vram_offset address) 2 >>= λ i. ok (put16 c i val)) s

unfoldable pub writel : Screen → ℕ → ℕ → Outcome Screen
unfolding write_planes
writel s address val =
    put_planes (λ c. in_plane (vram_offset address) 4 >>= λ i. ok (put32 c i val)) s

-- The body is compiled out.
abbrev pub writeq : Screen → ℕ → ℕ → Outcome Screen
writeq s address val = ok s

-- What x86_vga_ram_init registers.
abbrev pub gfxram : MmioDevice Screen
gfxram = record {
  base = vram_base;
  mask = 0xFFFE0000;
  readb = some readb;
  readw = some readw;
  readl = some readl;
  readq = some readq;
  writeb = some writeb;
  writew = some writew;
  writel = some writel;
  writeq = some writeq;
}
