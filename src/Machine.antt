-- ===== src/Machine.antt =====
-- devices/devices.c: the program's devices as one state, and the table of their port handlers in the
-- order in which devices_register_all registers them. A handler works on its own part of the state;
-- the floppy controller also reaches the DMA controller and the guest's memory, and the calls of
-- irq_set are one trace.
pub mod Owners
pub mod Ports
pub mod Start
pub mod Components
pub mod Frames
pub mod Isolation
pub mod Devices
pub mod Disk
pub mod Memory
pub mod Window
pub mod Printing
pub mod Text
pub mod Remap
pub mod Keys
pub mod Invariant
pub mod Mapped
pub mod Steps
use kvmulate.Prelude.{ℕ, List, [], ◌∷◌, ◌++◌, map, none, some, Outcome, ok, ◌>>=◌, Cells}
use kvmulate.Prelude.Parts.{Part}
use kvmulate.Irq.{IrqLevel}
use kvmulate.Io.{IoHandler, io_register_handler, io_remap_handler}
use kvmulate.Io.Parts.{handler_part}
use kvmulate.Handlers.{
  cmos_handler, i8237_handlers, pci_handler, qemupara_handler, kbd_handler, vgareg_handler,
  floppy_handler,
}
use kvmulate.Cmos.{Tm, Cmos, cmos_inb, cmos_outb}
use kvmulate.SmallPorts.{
  pos_handler, biosdebug_handler, parallelport_handlers, serialport_handlers, vgadbg_handler,
  vbe_handler,
}
use kvmulate.Dma.{Dma, Chip, first, second, i8237_inb, i8237_outb, i8237_page_inb, i8237_page_outb}
use kvmulate.Pci.{Pci, pci_inb, pci_inw, pci_inl, pci_outb, pci_outw, pci_outl}
use kvmulate.Paravirt.{
  Paravirt, qemupara_inb, qemupara_inw, qemupara_inl, qemupara_outb, qemupara_outw, qemupara_outl,
}
use kvmulate.I8042.{Regs, kbd_inb, kbd_inw, kbd_inl, kbd_outb, kbd_outw, kbd_outl}
use kvmulate.Vga.{Vga, vgareg_inb, vgareg_inw, vgareg_inl, vgareg_outb, vgareg_outw, vgareg_outl}
use kvmulate.Vga.Ram.{Screen}
use kvmulate.Vga.Rom.{Rom}
use kvmulate.Floppy.{Fdc, floppy_inb, floppy_outb}
use kvmulate.Ata.{AtaController}
use kvmulate.Ata.Ports.{ata_handler}

-- `now` is what localtime gives at the time of the access.
pub record Machine : Type 0 where
  pub now : Tm
  pub cmos : Cmos
  pub a20_en : ℕ
  pub printed : List ℕ
  pub bus : Pci (Rom × Cells)
  pub functions : Rom × Cells
  pub firmware : Paravirt
  pub keyboard : Regs
  pub screen : Screen
  pub fdc : Fdc
  pub ata : AtaController
  pub calls : List IrqLevel

abbrev pub cmos_part : Part Machine (Tm × Cmos)
cmos_part = record { get = λ m. (m.now, m.cmos); set = λ s m. record m { now = s.0; cmos = s.1 } }

abbrev pub pos_part : Part Machine ℕ
pos_part = record { get = λ m. m.a20_en; set = λ s m. record m { a20_en = s } }

abbrev pub debug_part : Part Machine (List ℕ)
debug_part = record { get = λ m. m.printed; set = λ s m. record m { printed = s } }

abbrev pub dma_part : Part Machine Dma
dma_part = record { get = λ m. m.fdc.dma; set = λ s m. record m { fdc = record m.fdc { dma = s } } }

abbrev pub bus_part : Part Machine (Pci (Rom × Cells) × (Rom × Cells))
bus_part = record {
  get = λ m. (m.bus, m.functions);
  set = λ s m. record m { bus = s.0; functions = s.1 };
}

abbrev pub firmware_part : Part Machine Paravirt
firmware_part = record { get = λ m. m.firmware; set = λ s m. record m { firmware = s } }

abbrev pub keyboard_part : Part Machine Regs
keyboard_part = record {
  get = λ m. record m.keyboard { calls = m.calls };
  set = λ s m. record m { keyboard = s; calls = s.calls };
}

abbrev pub vga_part : Part Machine Vga
vga_part = record {
  get = λ m. m.screen.vga;
  set = λ s m. record m { screen = record m.screen { vga = s } };
}

abbrev pub fdc_part : Part Machine Fdc
fdc_part = record {
  get = λ m. record m.fdc { calls = m.calls };
  set = λ s m. record m { fdc = s; calls = s.calls };
}

abbrev pub ata_part : Part Machine AtaController
ata_part = record {
  get = λ m. record m.ata { calls = m.calls };
  set = λ s m. record m { ata = s; calls = s.calls };
}

-- x86_cmos_init registers its handler and remaps the handle to it.
unfoldable pub register_cmos : List (IoHandler Machine) → Outcome (List (IoHandler Machine))
register_cmos table =
    let (handle, table') = io_register_handler (handler_part cmos_part cmos_handler) table in
    io_remap_handler handle (handler_part cmos_part cmos_handler) table'

unfoldable pub register_handlers :
    List (IoHandler Machine) → List (IoHandler Machine) → List (IoHandler Machine)
register_handlers [] table = table
register_handlers (h ∷ hs) table = register_handlers hs (io_register_handler h table).1

-- The handlers behind that of the CMOS, in the order of the initialisations.
abbrev pub later_handlers : List (IoHandler Machine)
later_handlers =
    handler_part pos_part pos_handler
      ∷ handler_part debug_part biosdebug_handler
      ∷ map (handler_part dma_part) i8237_handlers
    ++ (handler_part bus_part pci_handler
          ∷ handler_part firmware_part qemupara_handler
          ∷ handler_part keyboard_part kbd_handler
          ∷ parallelport_handlers
        ++ serialport_handlers
        ++ (handler_part vga_part (vgareg_handler 0x3C0)
            ∷ handler_part vga_part (vgareg_handler 0x3D0)
            ∷ vgadbg_handler
            ∷ vbe_handler
            ∷ handler_part fdc_part floppy_handler
            ∷ handler_part ata_part ata_handler
            ∷ []))

unfoldable pub port_table : Outcome (List (IoHandler Machine))
unfolding register_cmos register_handlers
port_table = register_cmos [] >>= λ table. ok (register_handlers later_handlers table)
