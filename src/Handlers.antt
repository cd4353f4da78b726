-- ===== src/Handlers.antt =====
-- devices/x86: the handlers that the devices' initialisations register, each over the device's state.
use kvmulate.Prelude.{ℕ, List, [], ◌∷◌, none, some, ok, ◌>>=◌, Cells}
use kvmulate.Io.{IoHandler}
use kvmulate.Cmos.{Tm, Cmos, cmos_inb, cmos_outb}
use kvmulate.Dma.{Dma, Chip, first, second, i8237_inb, i8237_outb, i8237_page_inb, i8237_page_outb}
use kvmulate.Pci.{Pci, pci_inb, pci_inw, pci_inl, pci_outb, pci_outw, pci_outl}
use kvmulate.Paravirt.{
  Paravirt, qemupara_inb, qemupara_inw, qemupara_inl, qemupara_outb, qemupara_outw, qemupara_outl,
}
use kvmulate.I8042.{Regs, kbd_inb, kbd_inw, kbd_inl, kbd_outb, kbd_outw, kbd_outl}
use kvmulate.Vga.{Vga, vgareg_inb, vgareg_inw, vgareg_inl, vgareg_outb, vgareg_outw, vgareg_outl}
use kvmulate.Vga.Rom.{Rom}
use kvmulate.Floppy.{Fdc, floppy_inb, floppy_outb}

abbrev pub cmos_handler : IoHandler (Tm × Cmos)
cmos_handler = record {
  base = 0x70;
  mask = 0xFE;
  inb = some (λ s port. cmos_inb s.0 port s.1 >>= λ q. ok (q.0, (s.0, q.1)));
  inw = none;
  inl = none;
  outb = some (λ s port val. cmos_outb port val s.1 >>= λ c. ok (s.0, c));
  outw = none;
  outl = none;
}

abbrev pub i8237_handler : Chip → ℕ → ℕ → IoHandler Dma
i8237_handler chip base mask = record {
  base = base;
  mask = mask;
  inb = some (λ d port. i8237_inb chip port d);
  inw = none;
  inl = none;
  outb = some (λ d port val. i8237_outb chip port val d);
  outw = none;
  outl = none;
}

abbrev pub i8237_page_handler : IoHandler Dma
i8237_page_handler = record {
  base = 0x80;
  mask = 0xFFF0;
  inb = some (λ d port. i8237_page_inb port d);
  inw = none;
  inl = none;
  outb = some (λ d port val. i8237_page_outb port val d);
  outw = none;
  outl = none;
}

-- The three handlers of x86_i8237_dma_init, whose argument is not used.
abbrev pub i8237_handlers : List (IoHandler Dma)
i8237_handlers =
    i8237_handler first 0x00 0xFFF0 ∷ i8237_handler second 0xC0 0xFFE0 ∷ i8237_page_handler ∷ []

abbrev pub pci_handler : IoHandler (Pci (Rom × Cells) × (Rom × Cells))
pci_handler = record {
  base = 0xCF8;
  mask = 0xFFF8;
  inb = some (λ s port. pci_inb port s.0 s.1 >>= λ q. ok (q.0, (s.0, q.1)));
  inw = some (λ s port. pci_inw port s.0 s.1 >>= λ q. ok (q.0, (s.0, q.1)));
  inl = some (λ s port. pci_inl port s.0 s.1 >>= λ q. ok (q.0, (s.0, q.1)));
  outb = some (λ s port val. pci_outb port val s.0 s.1);
  outw = some (λ s port val. pci_outw port val s.0 s.1);
  outl = some (λ s port val. pci_outl port val s.0 s.1);
}

abbrev pub qemupara_handler : IoHandler Paravirt
qemupara_handler = record {
  base = 0x510;
  mask = 0xFFFE;
  inb = some (λ p port. qemupara_inb p);
  inw = some (λ p port. qemupara_inw p);
  inl = some (λ p port. qemupara_inl p);
  outb = some (λ p port val. qemupara_outb p);
  outw = some (λ p port val. qemupara_outw port val p);
  outl = some (λ p port val. qemupara_outl p);
}

abbrev pub kbd_handler : IoHandler Regs
kbd_handler = record {
  base = 0x60;
  mask = 0xFFF8;
  inb = some (λ r port. kbd_inb port r);
  inw = some (λ r port. kbd_inw port r);
  inl = some (λ r port. kbd_inl port r);
  outb = some (λ r port val. kbd_outb port val r);
  outw = some (λ r port val. kbd_outw port val r);
  outl = some (λ r port val. kbd_outl port val r);
}

-- isaio[0] and isaio[1].
abbrev pub vgareg_handler : ℕ → IoHandler Vga
vgareg_handler base = record {
  base = base;
  mask = 0xFFF0;
  inb = some (λ v port. vgareg_inb base port v);
  inw = some (λ v port. vgareg_inw v);
  inl = some (λ v port. vgareg_inl v);
  outb = some (λ v port val. vgareg_outb base port val v);
  outw = some (λ v port val. vgareg_outw base port val v);
  outl = some (λ v port val. vgareg_outl v);
}

abbrev pub floppy_handler : IoHandler Fdc
floppy_handler = record {
  base = 0x3F0;
  mask = 0xFFF8;
  inb = some (λ f port. floppy_inb port f);
  inw = none;
  inl = none;
  outb = some (λ f port val. floppy_outb port val f);
  outw = none;
  outl = none;
}
