-- ===== src/Machine/Start.antt =====
-- devices/devices.c: the devices' state after devices_register_all.
use kvmulate.Prelude.{ℕ, [], Option, Outcome, ok, ◌>>=◌, Cells, zeros}
use kvmulate.Prelude.Int.{pos}
use kvmulate.Files.{File}
use kvmulate.LowMem.{LowMem}
use kvmulate.MemoryMap.{ram_end}
use kvmulate.Machine.{Machine}
use kvmulate.Cmos.{Tm, x86_cmos_init}
use kvmulate.Dma.{Dma, cleared}
use kvmulate.Pci.{x86_pci_init}
use kvmulate.Pci.Devices.{register_all}
use kvmulate.Pci.Together.{program_devices}
use kvmulate.I8042.{Regs, x86_keyboard_init}
use kvmulate.Vga.{start}
use kvmulate.Vga.Rom.{load_bios, x86_vga_rom_init}
use kvmulate.Floppy.{x86_floppy_init}
use kvmulate.Ata.{AtaController}
use kvmulate.Ata.Ports.{x86_ata_init}
use kvmulate.Ata.ConfigSpace.{ata_conf}

-- Static variables before any initialisation.
abbrev pub unset_dma : Dma
unset_dma = record { ctl0 = cleared; ctl1 = cleared; page = zeros }

abbrev pub unset_keyboard : Regs
unset_keyboard = record {
  status = 0;
  command_byte = 0;
  buf_output = zeros;
  ndx_output = pos 0;
  cmdparams = zeros;
  cmdparams_left = 0;
  cmdparams_cmd = 0;
  kbdparams = zeros;
  kbdparams_left = 0;
  kbdparams_cmd = 0;
  control = 0;
  calls = [];
}

-- The state that the initialisations leave, for the memory size that map_ram stored, the image of the
-- VGA's BIOS, the files that fopen and open gave, and the floppy controller's buffer from malloc.
abbrev pub start_machine :
    Tm → ℕ → Option Cells → Option File → LowMem → Cells → (ℕ → Cells) → AtaController → Machine
start_machine now megs rom floppy mem buffer planes ata = record {
  now = now;
  cmos = x86_cmos_init (ram_end megs);
  a20_en = 0;
  printed = [];
  bus = register_all program_devices x86_pci_init;
  functions = (x86_vga_rom_init rom, ata_conf);
  firmware = record { reg = 0; off = 0; buff = zeros };
  keyboard = x86_keyboard_init unset_keyboard;
  screen = record { vga = start; planes = planes };
  fdc = x86_floppy_init floppy unset_dma mem [] buffer;
  ata = ata;
  calls = [];
}

-- The VGA's initialisation reads the image of its BIOS, and x86_ata_init comes last, with an assertion
-- that its file is there.
unfoldable pub start_devices :
    Tm
    → ℕ
    → Option File
    → Option File
    → Option File
    → LowMem
    → Cells
    → (ℕ → Cells)
    → Outcome Machine
start_devices now megs vgabios floppy disk mem buffer planes = load_bios vgabios >>= λ rom.
    x86_ata_init disk >>= λ ata. ok (start_machine now megs rom floppy mem buffer planes ata)
