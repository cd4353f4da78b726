-- ===== src/Ata/ConfigSpace/Access.antt =====
-- devices/x86/pci.c and devices/x86/ata/controller.c: a guest's accesses to the configuration space
-- of the ATA controller.
use kvmulate.Prelude.{
  ℕ, ◌^◌, ◌<◌, ◌≡◌, Bool, ◌&&◌, ◌||◌, some, ◌>>=◌, ◌==◌, if◌then◌else◌, Cells, get32, put32,
  get32-put32, true, false, arith, Returns,
}
use kvmulate.Pci.{Pci, PciDev, pci_inl, pci_outl, get_device}
use kvmulate.Ata.ConfigSpace.{put_register, pciata_readl, pciata_writel, conf_offset, is_unused_bar}

abbrev read_as : ℕ → ℕ → ℕ
read_as r val = if r == 0x10 && val == 0xFFFFFFFF || is_unused_bar r then 0 else val

get32-put_register :
    (conf : Cells) (r val : ℕ) → val < 2 ^ 32 → get32 (put_register conf r val) r ≡ read_as r val
unfolding put_register
get32-put_register conf r val word = go (r == 0x10 && val == 0xFFFFFFFF) (is_unused_bar r)
  where
    go :
        (b c : Bool)
        → get32
            (if b
              then put32 (put32 conf 0x10 0xFFFFFF1) r 0
              else if c
              then put32 conf r 0
              else put32 conf r val)
            r
          ≡ (if b || c then 0 else val)
    go true c = get32-put32 (put32 conf 0x10 0xFFFFFF1) r 0 (omega arith)
    go false true = get32-put32 conf r 0 (omega arith)
    go false false = get32-put32 conf r val word

-- A double word of the configuration space of the ATA controller, selected and enabled: what is
-- written through the data port is read back, but for the registers BAR1 to BAR5 and the expansion
-- ROM, which always read as 0, and for BAR0, which reads as 0 after a write of ones.
pub dword_round_trip :
    (p : Pci Cells) (d : PciDev Cells) (conf : Cells) (val : ℕ)
    → get_device p ≡ some d
    → d.readl ≡ some pciata_readl
    → d.writel ≡ some pciata_writel
    → p.configspace ≡ 1
    → p.index < 256
    → val < 2 ^ 32
    → Returns (λ q. q.0 ≡ read_as p.index val) (pci_outl 4 val p conf >>= λ q. pci_inl 4 q.0 q.1)
unfolding pci_outl pci_inl pciata_readl pciata_writel conf_offset
dword_round_trip p d conf val found reads writes enabled small word =
    ground (arith, get32-put_register conf p.index val word)
