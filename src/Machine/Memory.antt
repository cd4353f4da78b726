-- ===== src/Machine/Memory.antt =====
-- mmio.c, devices/x86/vga/vga.c, ram.c and rom.c: the devices in memory space, over the state of all
-- devices. A PCI write moves the ROM, so that the list depends on the state.
use kvmulate.Prelude.{ℕ, List, none, some, Outcome, ◌>>=◌}
use kvmulate.Prelude.Parts.{Part}
use kvmulate.Io.Parts.{in_part, out_part}
use kvmulate.Mmio.{MmioDevice, mmio_init, mmio_register_device}
use kvmulate.System.Run.{VmExit, Loop, sys_run_vcpu}
use kvmulate.Vga.Rom.{
  Rom, vgarom_bios_readb, vgarom_bios_readw, vgarom_bios_readl, vgarom_bios_writeb,
  vgarom_bios_writew, vgarom_bios_writel,
}
use kvmulate.Vga.Ram.{Screen, gfxram}
use kvmulate.Machine.{Machine, port_table}

abbrev pub rom_part : Part Machine Rom
rom_part = record {
  get = λ m. m.functions.0;
  set = λ r m. record m { functions = (r, m.functions.1) };
}

abbrev pub screen_part : Part Machine Screen
screen_part = record { get = λ m. m.screen; set = λ s m. record m { screen = s } }

-- A memory device of a part, as one of the whole state.
abbrev pub device_part : {T S : Type 0} → Part T S → MmioDevice S → MmioDevice T
device_part part d = record {
  base = d.base;
  mask = d.mask;
  readb = in_part part d.readb;
  readw = in_part part d.readw;
  readl = in_part part d.readl;
  readq = in_part part d.readq;
  writeb = out_part part d.writeb;
  writew = out_part part d.writew;
  writel = out_part part d.writel;
  writeq = out_part part d.writeq;
}

-- ctx.pcirom, with its current base.
abbrev pub pcirom : ℕ → MmioDevice Rom
pcirom base = record {
  base = base;
  mask = 0xFFFE0000;
  readb = some vgarom_bios_readb;
  readw = some vgarom_bios_readw;
  readl = some vgarom_bios_readl;
  readq = none;
  writeb = some vgarom_bios_writeb;
  writew = some vgarom_bios_writew;
  writel = some vgarom_bios_writel;
  writeq = none;
}

-- The order of x86_vga_init.
unfoldable pub memory_devices : Machine → List (MmioDevice Machine)
memory_devices m =
    mmio_register_device (device_part screen_part gfxram)
      (mmio_register_device (device_part rom_part (pcirom m.functions.0.base)) mmio_init)

-- The exits of a guest of the whole machine.
unfoldable pub run_guest : List VmExit → Machine → Outcome (Loop Machine)
run_guest es m = port_table >>= λ table. sys_run_vcpu table memory_devices es m
