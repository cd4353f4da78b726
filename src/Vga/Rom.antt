-- ===== src/Vga/Rom.antt =====
-- devices/x86/vga/rom.c: the VGA's PCI device with its expansion ROM, and the window to the BIOS in
-- memory space. The image is what load_bios read, in a block of 128 KB.
pub mod Window
use kvmulate.Files.{File, file_length, read_image}
use kvmulate.Prelude.{
  Option, copy, ℕ, ◌+◌, ◌-◌, ◌*◌, ◌/◌, ◌%◌, ◌^◌, ◌&&◌, ◌||◌, Bool, true, false, not, some, none,
  Outcome, ok, abort, fault, ◌>>=◌, ltb, leb, ◌==◌, if◌then◌else◌, Cells, zeros, update, get16,
  get32, put16, put32,
}
use kvmulate.Prelude.Int.{ℤ, pos, negsuc}
use kvmulate.Pci.{PciDev}
use kvmulate.Mmio.{MmioDevice}

pub record Rom : Type 0 where
  -- pcirom.base, which the dispatch of memory accesses reads as well
  pub base : ℕ
  pub is_mapped : Bool
  -- `none` is NULL.
  pub rom_data : Option Cells
  pub ram_data : Option Cells
  pub conf : Cells

abbrev pub conf_size : ℕ
conf_size = 304

abbrev pub rom_size : ℕ
rom_size = 0x20000

-- A new base other than 0xC0000.
pub remap_bios : ℕ → Rom → Rom
remap_bios newbase r =
    if newbase == 0xC0000 then r else record r { base = newbase; is_mapped = true }

-- ((uint8*)&dev.conf) + reg, for an access of `n` bytes.
unfoldable pub conf_offset : ℤ → ℕ → Outcome ℕ
conf_offset (pos i) n = if leb (i + n) conf_size then ok i else fault
conf_offset (negsuc i) n = fault

pub vgarom_readb : Rom → ℤ → Outcome (ℕ × Rom)
unfolding conf_offset
vgarom_readb r reg = conf_offset reg 1 >>= λ i. ok (r.conf i, r)

pub vgarom_readw : Rom → ℤ → Outcome (ℕ × Rom)
unfolding conf_offset
vgarom_readw r reg = conf_offset reg 2 >>= λ i. ok (get16 r.conf i, r)

pub vgarom_readl : Rom → ℤ → Outcome (ℕ × Rom)
unfolding conf_offset
vgarom_readl r reg = conf_offset reg 4 >>= λ i. ok (get32 r.conf i, r)

abbrev pub is_register : ℤ → ℕ → Bool
is_register (pos i) k = i == k
is_register (negsuc i) k = false

pub vgarom_writeb : Rom → ℤ → ℕ → Outcome Rom
vgarom_writeb r reg val = if is_register reg 0x04 then ok r else abort

abbrev pub vgarom_writew : Rom → ℤ → ℕ → Outcome Rom
vgarom_writew r reg val = ok r

abbrev pub is_bar : ℤ → Bool
is_bar reg =
    is_register reg 0x10
    || (is_register reg 0x14
        || (is_register reg 0x18
            || (is_register reg 0x1C || (is_register reg 0x20 || is_register reg 0x24))))

-- Of a base address only the lowest byte is cleared. Bit 0 of the ROM's address maps it.
pub vgarom_writel : Rom → ℤ → ℕ → Outcome Rom
unfolding conf_offset remap_bios
vgarom_writel r reg val =
    if is_bar reg
    then (conf_offset reg 1 >>= λ i. ok (record r { conf = update r.conf i 0 }))
    else if is_register reg 0x30 && val == 0xFFFFF800
    then ok (record r { conf = put32 r.conf 0x30 0xFFFE0000 })
    else if is_register reg 0x30
    then (let r' = if val % 2 == 1 then remap_bios (val - 1) r else r in
        ok (record r' { conf = put32 r'.conf 0x30 val }))
    else abort

abbrev pub vga_pci_dev : PciDev Rom
vga_pci_dev = record {
  bus = 0;
  dev = 0;
  fn = 0;
  readb = some vgarom_readb;
  readw = some vgarom_readw;
  readl = some vgarom_readl;
  writeb = some vgarom_writeb;
  writew = some vgarom_writew;
  writel = some vgarom_writel;
}

-- address - pDev->base, as a uint64, for an access of `n` bytes to a block of 128 KB.
abbrev pub rom_offset : Rom → ℕ → ℕ → Outcome ℕ
rom_offset r address n =
    let i : ℕ = (address + 2 ^ 64 - r.base) % 2 ^ 64 in
    if ltb (i + n) (rom_size + 1) then ok i else fault

abbrev pub pointer : Option Cells → Outcome Cells
pointer none = fault
pointer (some block) = ok block

-- Below 1 MB the window shows RAM.
abbrev pub rom_block : Rom → Outcome Cells
rom_block r = pointer (if r.base == 0xC0000 then r.ram_data else r.rom_data)

pub vgarom_bios_readb : Rom → ℕ → Outcome (ℕ × Rom)
vgarom_bios_readb r address =
    rom_block r >>= λ block. rom_offset r address 1 >>= λ i. ok (block i, r)

abbrev pub vgarom_bios_readw : Rom → ℕ → Outcome (ℕ × Rom)
vgarom_bios_readw r address =
    rom_block r >>= λ block. rom_offset r address 2 >>= λ i. ok (get16 block i, r)

abbrev pub vgarom_bios_readl : Rom → ℕ → Outcome (ℕ × Rom)
vgarom_bios_readl r address =
    rom_block r >>= λ block. rom_offset r address 4 >>= λ i. ok (get32 block i, r)

-- A write of `n` bytes, which reaches the RAM only.
abbrev pub rom_write : Rom → ℕ → ℕ → (Cells → ℕ → Cells) → Outcome Rom
rom_write r address n put =
    if r.base == 0xC0000
    then (pointer r.ram_data >>= λ block.
        rom_offset r address n >>= λ i. ok (record r { ram_data = some (put block i) }))
    else ok r

pub vgarom_bios_writeb : Rom → ℕ → ℕ → Outcome Rom
vgarom_bios_writeb r address val = rom_write r address 1 (λ block i. update block i val)

abbrev pub vgarom_bios_writew : Rom → ℕ → ℕ → Outcome Rom
vgarom_bios_writew r address val = rom_write r address 2 (λ block i. put16 block i val)

abbrev pub vgarom_bios_writel : Rom → ℕ → ℕ → Outcome Rom
vgarom_bios_writel r address val = rom_write r address 4 (λ block i. put32 block i val)

-- The file vgabios.rom in a block of zeros, if it can be opened; its length is an int.
unfoldable pub load_bios : Option File → Outcome (Option Cells)
load_bios none = ok none
load_bios (some f) = read_image zeros (file_length f) f >>= λ block. ok (some block)

-- What x86_vga_rom_init leaves, with what load_bios gave. Its result is ignored.
unfoldable pub x86_vga_rom_init : Option Cells → Rom
x86_vga_rom_init image = record {
  base = 0xFFAA0000;
  is_mapped = false;
  rom_data = image;
  ram_data = image;
  conf =
      put32
        (put32 (put16 (put16 (put16 (put16 zeros 0 0x1234) 2 0x1111) 4 0x0003) 6 0x0280) 8
          (3 * 2 ^ 24))
        0x30 0xC0000;
}
