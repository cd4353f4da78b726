-- ===== src/Machine/Devices.antt =====
-- devices/devices.c and io.c: the devices behind the table of the program, each as if it were alone.
use kvmulate.Prelude.{◌<◌, ◌≡◌, refl, ap, ◌∙◌, List, [], ◌∷◌, map, some, Returns}
use mathlib.Core.Option
use kvmulate.Prelude.Parts.{Part, Keeps}
use kvmulate.Io.{IoHandler}
use kvmulate.Io.Parts.{Access, port_of, performs, handler_part, AllReach, view, performs-part}
use kvmulate.SmallPorts.{pos_handler, biosdebug_handler}
use kvmulate.Dma.{first, second}
use kvmulate.Ata.Ports.{ata_handler}
use kvmulate.Handlers.{
  cmos_handler, i8237_handler, i8237_page_handler, vgareg_handler, pci_handler, qemupara_handler,
  kbd_handler, floppy_handler,
}
use kvmulate.Machine.{
  Machine, cmos_part, pos_part, debug_part, dma_part, vga_part, bus_part, firmware_part,
  keyboard_part, fdc_part, ata_part, port_table,
}
use kvmulate.Machine.Owners.{Owner, handler_of, owner, registered}
use kvmulate.Machine.Ports.{lookup-owner, of_table}

-- All the accesses are to ports of one owner.
abbrev pub AllOwned : Owner → List Access → Type 0
AllOwned o [] = Unit {0}
AllOwned o (a ∷ os) = (port_of a < 65536) × (owner (port_of a) ≡ some o) × AllOwned o os

-- Through the table the accesses read what they read from the handler alone, and leave its part in the
-- same state; they abort or fault where it does.
abbrev pub RunsAs : {S : Type 0} → Part Machine S → IoHandler S → List Access → Machine → Type 0
RunsAs part h os m =
    Returns (λ table. view part (performs table os m) ≡ performs (h ∷ []) os (part.get m))
      port_table

module _ {S : Type 0} (part : Part Machine S) (keeps : Keeps part) (h : IoHandler S) (o : Owner)
    (is : handler_of o ≡ handler_part part h) where
  owned-AllReach :
      (os : List Access) → AllOwned o os → AllReach part keeps h (map handler_of registered) os
  owned-AllReach [] owned = tt
  owned-AllReach (a ∷ os) owned = (
    lookup-owner (port_of a) owned.0 ∙ ap (Option.map handler_of) owned.1 ∙ ap some is,
    owned-AllReach os owned.2,
  )

  runs_as : (os : List Access) (m : Machine) → AllOwned o os → RunsAs part h os m
  runs_as os m owned =
      of_table (λ table. view part (performs table os m) ≡ performs (h ∷ []) os (part.get m))
        (performs-part part keeps h (map handler_of registered) os m (owned-AllReach os owned))

-- The device of a port's owner, on its own.
abbrev pub OnItsOwn : Owner → List Access → Machine → Type 0
OnItsOwn Owner.rtc os m = RunsAs cmos_part cmos_handler os m
OnItsOwn Owner.system_control os m = RunsAs pos_part pos_handler os m
OnItsOwn Owner.bios_debug os m = RunsAs debug_part biosdebug_handler os m
OnItsOwn Owner.dma_first os m = RunsAs dma_part (i8237_handler first 0x00 0xFFF0) os m
OnItsOwn Owner.dma_second os m = RunsAs dma_part (i8237_handler second 0xC0 0xFFE0) os m
OnItsOwn Owner.dma_page os m = RunsAs dma_part i8237_page_handler os m
OnItsOwn Owner.pci os m = RunsAs bus_part pci_handler os m
OnItsOwn Owner.firmware os m = RunsAs firmware_part qemupara_handler os m
OnItsOwn Owner.keyboard os m = RunsAs keyboard_part kbd_handler os m
OnItsOwn Owner.vga_first os m = RunsAs vga_part (vgareg_handler 0x3C0) os m
OnItsOwn Owner.vga_second os m = RunsAs vga_part (vgareg_handler 0x3D0) os m
OnItsOwn Owner.floppy os m = RunsAs fdc_part floppy_handler os m
OnItsOwn Owner.disk os m = RunsAs ata_part ata_handler os m
OnItsOwn _ os m = Unit {0}

-- In the program's table of ports, each device that has a state works as if it were the only one: any
-- sequence of accesses to ports of one handler reads the same values, leaves the same state in the
-- device's part of the machine and ends in the same way as on the device alone.
pub devices_run_alone :
    (o : Owner) (os : List Access) (m : Machine) → AllOwned o os → OnItsOwn o os m
devices_run_alone Owner.rtc os m h =
    runs_as cmos_part (λ t n. refl) cmos_handler Owner.rtc refl os m h
devices_run_alone Owner.system_control os m h =
    runs_as pos_part (λ t n. refl) pos_handler Owner.system_control refl os m h
devices_run_alone Owner.bios_debug os m h =
    runs_as debug_part (λ t n. refl) biosdebug_handler Owner.bios_debug refl os m h
devices_run_alone Owner.dma_first os m h =
    runs_as dma_part (λ t n. refl) (i8237_handler first 0x00 0xFFF0) Owner.dma_first refl os m h
devices_run_alone Owner.dma_second os m h =
    runs_as dma_part (λ t n. refl) (i8237_handler second 0xC0 0xFFE0) Owner.dma_second refl os m h
devices_run_alone Owner.dma_page os m h =
    runs_as dma_part (λ t n. refl) i8237_page_handler Owner.dma_page refl os m h
devices_run_alone Owner.pci os m h =
    runs_as bus_part (λ t n. refl) pci_handler Owner.pci refl os m h
devices_run_alone Owner.firmware os m h =
    runs_as firmware_part (λ t n. refl) qemupara_handler Owner.firmware refl os m h
devices_run_alone Owner.keyboard os m h =
    runs_as keyboard_part (λ t n. refl) kbd_handler Owner.keyboard refl os m h
devices_run_alone Owner.vga_first os m h =
    runs_as vga_part (λ t n. refl) (vgareg_handler 0x3C0) Owner.vga_first refl os m h
devices_run_alone Owner.vga_second os m h =
    runs_as vga_part (λ t n. refl) (vgareg_handler 0x3D0) Owner.vga_second refl os m h
devices_run_alone Owner.floppy os m h =
    runs_as fdc_part (λ t n. refl) floppy_handler Owner.floppy refl os m h
devices_run_alone Owner.disk os m h =
    runs_as ata_part (λ t n. refl) ata_handler Owner.disk refl os m h
devices_run_alone Owner.vbe os m h = tt
devices_run_alone Owner.parallel_first os m h = tt
devices_run_alone Owner.parallel_second os m h = tt
devices_run_alone Owner.serial_first os m h = tt
devices_run_alone Owner.serial_second os m h = tt
devices_run_alone Owner.serial_third os m h = tt
devices_run_alone Owner.serial_fourth os m h = tt
devices_run_alone Owner.vga_debug os m h = tt
