-- ===== src/Vga/Rom/Window.antt =====
-- devices/x86/vga/rom.c: the PCI device, and the image through the window.
use kvmulate.Prelude.{true, some, ℕ, ◌+◌, ◌%◌, ◌^◌, ◌<◌, ◌≡◌, ◌≢◌, ok, arith, Cells, put32}
use kvmulate.Prelude.Int.{pos}
use kvmulate.Pci.Safety.{Serves}
use kvmulate.Vga.Rom.{
  Rom, vga_pci_dev, vgarom_readb, vgarom_readw, vgarom_readl, vgarom_writeb, vgarom_writel,
  conf_offset, remap_bios, vgarom_bios_readb, vgarom_bios_writeb,
}

-- Until the guest writes the address 0xC0000, which is refused, the window shows the image itself.
abbrev pub Shows : Cells → Rom → Type 0
Shows image r = (r.base ≢ 0xC0000) × (r.rom_data ≡ some image)

pub vga_pci_dev-Serves : (image : Cells) → Serves (Shows image) vga_pci_dev
unfolding vgarom_readb vgarom_readw vgarom_readl vgarom_writeb vgarom_writel conf_offset remap_bios
vga_pci_dev-Serves image = record {
  readb = λ r i low h. ground (arith, h.0, h.1);
  readw = λ r i low h. ground (arith, h.0, h.1);
  readl = λ r i low h. ground (arith, h.0, h.1);
  writeb = λ r i val low h. ground (arith, h.0, h.1);
  writew = λ r i val low h. h;
  writel = λ r i val low h. ground (arith, h.0, h.1);
}

-- The device after a write of `address + 1` to the ROM's address register.
abbrev pub moved_to : ℕ → Rom → Rom
moved_to address r = record {
  base = address;
  is_mapped = true;
  rom_data = r.rom_data;
  ram_data = r.ram_data;
  conf = put32 r.conf 0x30 (address + 1);
}

module _ (r : Rom) (address : ℕ) where
  pub vgarom_writel-moved_to :
      address % 0x20000 ≡ 0
      → address ≢ 0xC0000
      → vgarom_writel r (pos 0x30) (address + 1) ≡ ok (moved_to address r)
  unfolding vgarom_writel remap_bios conf_offset
  vgarom_writel-moved_to aligned other = ground arith

  module _ (offset : ℕ) (other : address ≢ 0xC0000) (word : address < 2 ^ 32)
      (inside : offset < 0x20000) where
    pub vgarom_bios_readb-moved_to :
        (image : Cells)
        → r.rom_data ≡ some image
        → vgarom_bios_readb (moved_to address r) (address + offset)
          ≡ ok (image offset, moved_to address r)
    unfolding vgarom_bios_readb
    vgarom_bios_readb-moved_to image loaded = ground (arith, loaded)

    pub vgarom_bios_writeb-moved_to :
        (val : ℕ)
        → vgarom_bios_writeb (moved_to address r) (address + offset) val ≡ ok (moved_to address r)
    unfolding vgarom_bios_writeb
    vgarom_bios_writeb-moved_to val = ground arith
