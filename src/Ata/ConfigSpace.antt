-- ===== src/Ata/ConfigSpace.antt =====
-- devices/x86/ata/controller.c: the PCI device of the ATA controller, whose functions reach into the
-- 304 bytes of its pcidev_config_t (include/pci.h).
pub mod Access
pub mod Bounds
use kvmulate.Prelude.{
  ℕ, ◌+◌, ◌*◌, ◌/◌, ◌%◌, ◌^◌, ◌&&◌, ◌||◌, Bool, some, Outcome, ok, fault, ◌>>=◌, leb, ◌==◌,
  if◌then◌else◌, Cells, zeros, get16, get32, put16, put32,
}
use kvmulate.Prelude.Int.{ℤ, pos, negsuc}
use kvmulate.Pci.{PciDev}

abbrev pub conf_size : ℕ
conf_size = 304

-- ((uint8*)&dev.conf) + reg, for an access of `n` bytes: the offset, if all of it is in dev.conf.
pub conf_offset : ℤ → ℕ → Outcome ℕ
conf_offset (pos r) n = if leb (r + n) conf_size then ok r else fault
conf_offset (negsuc r) n = fault

pub pciata_readb : Cells → ℤ → Outcome (ℕ × Cells)
unfolding conf_offset
pciata_readb conf reg = conf_offset reg 1 >>= λ r. ok (conf r, conf)

pub pciata_readw : Cells → ℤ → Outcome (ℕ × Cells)
unfolding conf_offset
pciata_readw conf reg = conf_offset reg 2 >>= λ r. ok (get16 conf r, conf)

pub pciata_readl : Cells → ℤ → Outcome (ℕ × Cells)
unfolding conf_offset
pciata_readl conf reg = conf_offset reg 4 >>= λ r. ok (get32 conf r, conf)

abbrev pub pciata_writeb : Cells → ℤ → ℕ → Outcome Cells
pciata_writeb conf reg val = ok conf

abbrev pub pciata_writew : Cells → ℤ → ℕ → Outcome Cells
pciata_writew conf reg val = ok conf

-- PCI_CFG_REG_BAR1 to PCI_CFG_REG_BAR5, and PCI_CFG_REG_EXPROM
abbrev pub is_unused_bar : ℕ → Bool
is_unused_bar r = r == 0x14 || (r == 0x18 || (r == 0x1C || (r == 0x20 || (r == 0x24 || r == 0x30))))

-- A write of ones to BAR0 stores 0xFFFFFF1 in bar[0], and then 0 in the same place.
pub put_register : Cells → ℕ → ℕ → Cells
put_register conf r val =
    if r == 0x10 && val == 0xFFFFFFFF
    then put32 (put32 conf 0x10 0xFFFFFF1) r 0
    else if is_unused_bar r
    then put32 conf r 0
    else put32 conf r val

pub pciata_writel : Cells → ℤ → ℕ → Outcome Cells
unfolding conf_offset
pciata_writel conf reg val = conf_offset reg 4 >>= λ r. ok (put_register conf r val)

-- What x86_ata_init puts into dev.conf.
abbrev pub ata_conf : Cells
ata_conf =
    put32 (put16 (put16 (put16 (put16 zeros 0 0xF00D) 2 0xDEAD) 4 0x0003) 6 0x0280) 8
      (2 ^ 24 + 2 ^ 16 + 0x83 * 2 ^ 8)

abbrev pub ata_pci_dev : PciDev Cells
ata_pci_dev = record {
  bus = 0;
  dev = 0;
  fn = 0;
  readb = some pciata_readb;
  readw = some pciata_readw;
  readl = some pciata_readl;
  writeb = some pciata_writeb;
  writew = some pciata_writew;
  writel = some pciata_writel;
}
