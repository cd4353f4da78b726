-- ===== src/Ata/ConfigSpace/Bounds.antt =====
-- devices/x86/ata/controller.c: the accesses of the PCI device to its configuration space.
use kvmulate.Prelude.{ℕ, ◌+◌, ◌<◌, ◌≡◌, some, fault, Cells, arith}
use kvmulate.Pci.{Pci, PciDev, pci_outl, get_device}
use kvmulate.Pci.Safety.{Serves}
use kvmulate.Ata.ConfigSpace.{
  ata_pci_dev, pciata_readl, pciata_writel, pciata_readb, pciata_readw, conf_offset,
}

-- The configuration space has 304 bytes, so every register that a guest reaches lies in it.
pub ata_pci_dev-Serves : Serves (λ conf. Unit {0}) ata_pci_dev
unfolding pciata_readb pciata_readw pciata_readl pciata_writel conf_offset
ata_pci_dev-Serves = record {
  readb = λ conf r low _. ground arith;
  readw = λ conf r low _. ground arith;
  readl = λ conf r low _. ground arith;
  writeb = λ conf r val low _. tt;
  writew = λ conf r val low _. tt;
  writel = λ conf r val low _. ground arith;
}

-- A double word written to one of the three ports between the address and the data is taken for
-- data of a register before the selected one: while the enable bit is set and the index plus the
-- port is below 4, the controller's function writes in front of its configuration space.
pub misaligned_write :
    (p : Pci Cells) (d : PciDev Cells) (conf : Cells) (port val : ℕ)
    → get_device p ≡ some d
    → d.writel ≡ some pciata_writel
    → p.configspace ≡ 1
    → 0 < port
    → p.index + port < 4
    → pci_outl port val p conf ≡ fault
unfolding pci_outl pciata_writel conf_offset
misaligned_write p d conf port val found writes enabled not_address before =
    ground (arith, found, writes)
