-- ===== src/Pci/Together.antt =====
-- devices/x86/pci.c: the two devices of the program on one bus. x86_vga_init registers the VGA's before
-- x86_ata_init registers the ATA controller's; each works on its own part of the state.
use kvmulate.Prelude.{ℕ, List, [], ◌∷◌, some, none, Option, Outcome, ok, ◌>>=◌, Safe->>=, Cells}
use kvmulate.Prelude.Int.{ℤ, pos}
use kvmulate.Prelude.Parts.{Part}
use kvmulate.Pci.{PciDev}
use kvmulate.Pci.Safety.{Reads, Writes, Serves, AllServe}
use kvmulate.Vga.Rom.{Rom, vga_pci_dev}
use kvmulate.Vga.Rom.Window.{Shows, vga_pci_dev-Serves}
use kvmulate.Ata.ConfigSpace.{ata_pci_dev}
use kvmulate.Ata.ConfigSpace.Bounds.{ata_pci_dev-Serves}

module _ {T S : Type 0} (part : Part T S) where
  abbrev pub read_part : Option (S → ℤ → Outcome (ℕ × S)) → Option (T → ℤ → Outcome (ℕ × T))
  read_part none = none
  read_part (some f) = some (λ t reg. f (part.get t) reg >>= λ q. ok (q.0, part.set q.1 t))

  abbrev pub write_part : Option (S → ℤ → ℕ → Outcome S) → Option (T → ℤ → ℕ → Outcome T)
  write_part none = none
  write_part (some f) = some (λ t reg val. f (part.get t) reg val >>= λ s. ok (part.set s t))

  abbrev pub dev_part : PciDev S → PciDev T
  dev_part d = record {
    bus = d.bus;
    dev = d.dev;
    fn = d.fn;
    readb = read_part d.readb;
    readw = read_part d.readw;
    readl = read_part d.readl;
    writeb = write_part d.writeb;
    writew = write_part d.writew;
    writel = write_part d.writel;
  }

  module _ (I : S → Type 0) (J : T → Type 0) (down : (t : T) → J t → I (part.get t))
      (up : (t : T) (s : S) → J t → I s → J (part.set s t)) where
    read_part-Reads : (f : Option (S → ℤ → Outcome (ℕ × S))) → Reads I f → Reads J (read_part f)
    read_part-Reads none h = absurd h
    read_part-Reads (some f) h = λ t r low j.
        Safe->>= (λ q. I q.1) (λ q. J q.1) (f (part.get t) (pos r)) _
          (h (part.get t) r low (down t j)) (λ q i. up t q.1 j i)

    write_part-Writes : (f : Option (S → ℤ → ℕ → Outcome S)) → Writes I f → Writes J (write_part f)
    write_part-Writes none h = absurd h
    write_part-Writes (some f) h = λ t r val low j.
        Safe->>= I J (f (part.get t) (pos r) val) _ (h (part.get t) r val low (down t j))
          (λ s i. up t s j i)

    dev_part-Serves : (d : PciDev S) → Serves I d → Serves J (dev_part d)
    dev_part-Serves d h = record {
      readb = read_part-Reads d.readb h.readb;
      readw = read_part-Reads d.readw h.readw;
      readl = read_part-Reads d.readl h.readl;
      writeb = write_part-Writes d.writeb h.writeb;
      writew = write_part-Writes d.writew h.writew;
      writel = write_part-Writes d.writel h.writel;
    }

abbrev pub rom_part : Part (Rom × Cells) Rom
rom_part = record { get = λ t. t.0; set = λ r t. (r, t.1) }

abbrev pub conf_part : Part (Rom × Cells) Cells
conf_part = record { get = λ t. t.1; set = λ c t. (t.0, c) }

abbrev pub program_devices : List (PciDev (Rom × Cells))
program_devices = dev_part rom_part vga_pci_dev ∷ dev_part conf_part ata_pci_dev ∷ []

-- The program's devices keep their promises, and the BIOS image.
pub program_devices-AllServe : (image : Cells) → AllServe (λ t. Shows image t.0) program_devices
program_devices-AllServe image = (
  dev_part-Serves rom_part (Shows image) (λ t. Shows image t.0) (λ t j. j) (λ t r j i. i)
      vga_pci_dev (vga_pci_dev-Serves image),
  (
    dev_part-Serves conf_part (λ c. Unit {0}) (λ t. Shows image t.0) (λ t j. tt) (λ t c j i. j)
        ata_pci_dev ata_pci_dev-Serves,
    tt,
  ),
)
