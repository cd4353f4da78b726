-- ===== src/Tests/Table.antt =====
-- devices/devices.c: accesses to the ports of the program's table.
use kvmulate.Prelude.{
  update, true, run, IfReturns, ℕ, ◌≡◌, ◌≢◌, refl, List, [], ◌∷◌, none, some, Returns, zeros, arith,
}
use mathlib.Core.Option
use kvmulate.Io.{lookup_handler}
use kvmulate.Io.Parts.{Access, outb, inb, outw, performs}
use kvmulate.Ata.{AtaController, master_drive}
use kvmulate.Ata.Ports.{no_device}
use kvmulate.Cmos.{Tm}
use kvmulate.Machine.{Machine, port_table}
use kvmulate.MemoryMap.{ram_end}
use kvmulate.Vga.Viewer.Keys.{key_event}
use kvmulate.Machine.Invariant.{MachineInv}
use kvmulate.Machine.Steps.{Step, access, memory, event, clock, step, run_machine-Inv}
use kvmulate.Machine.Start.{start_machine}
use kvmulate.Machine.Owners.{Owner, handler_of, owner}
use kvmulate.Machine.Ports.{port_owner}
use kvmulate.Machine.Devices.{AllOwned, OnItsOwn, devices_run_alone}
use kvmulate.Machine.Components.{Component, Same}
use kvmulate.Machine.Isolation.{NoneAt, isolation}

abbrev noon : Tm
noon = record { tm_sec = 0; tm_min = 0; tm_hour = 12; tm_mday = 1; tm_mon = 0; tm_year = 114 }

abbrev no_drives : AtaController
no_drives = record { master = no_device; slave = no_device; curr = master_drive; calls = [] }

abbrev pub machine : Machine
machine =
    start_machine noon 64 (some zeros) none (record { low = zeros; high = zeros }) zeros
      (λ p. zeros) no_drives

-- The port of the disk controller's device control register.
port_owner_example :
    Returns (λ table. lookup_handler 0x3F6 table ≡ Option.map handler_of (owner 0x3F6)) port_table
port_owner_example = port_owner 0x3F6 (omega arith)

-- A free port, the last of the PCI bus, and a port of the clock far above it.
owners :
    (owner 0x3F6 ≡ some Owner.floppy)
    × (owner 0x376 ≡ none)
    × (owner 0xCFF ≡ some Owner.pci)
    × (owner 0xFF71 ≡ some Owner.rtc)
owners = (refl, refl, refl, refl)

-- The command byte of the keyboard controller is written and read.
abbrev command_byte : List Access
command_byte = outb 0x64 0x60 ∷ outb 0x60 0x47 ∷ outb 0x64 0x20 ∷ inb 0x60 ∷ []

command_byte-AllOwned : AllOwned Owner.keyboard command_byte
command_byte-AllOwned =
    (omega arith, refl, (omega arith, refl, (omega arith, refl, (omega arith, refl, tt))))

devices_run_alone_example : OnItsOwn Owner.keyboard command_byte machine
devices_run_alone_example =
    devices_run_alone Owner.keyboard command_byte machine command_byte-AllOwned

-- A reset of the disk through its second range of ports, and a write to the floppy's data port.
abbrev resets : List Access
resets = outb 0x3F6 4 ∷ outb 0x3F6 0 ∷ outw 0x3F5 8 ∷ []

floppy-ne-disk : ◌≢◌ {A = Option.Option Component} (some Component.floppy) (some Component.disk)
floppy-ne-disk e = cc

resets-NoneAt : NoneAt Component.disk resets
resets-NoneAt =
    (omega arith, floppy-ne-disk, (omega arith, floppy-ne-disk, (omega arith, floppy-ne-disk, tt)))

isolation_example :
    Returns
      (λ table.
        IfReturns
          (λ (q : List ℕ × Machine). Same Component.disk machine q.1)
          (performs table resets machine))
      port_table
isolation_example = isolation Component.disk resets machine resets-NoneAt

-- The guest selects the status register B of the clock, and the key F12 comes before it writes there
-- and to the VGA's memory.
abbrev interleaved : List Step
interleaved =
    access (outb 0x70 11)
    ∷ event (key_event true 293)
    ∷ clock noon
    ∷ access (outb 0x71 7)
    ∷ memory true 0xB8000 1 (update zeros 0 65)
    ∷ access (inb 0x60)
    ∷ []

run_machine-Inv_example :
    Returns
      (λ table. IfReturns (MachineInv (ram_end 64)) (
        run (step table) interleaved (
          start_machine noon 64
            (some zeros)
            none
            (record { low = zeros; high = zeros })
            zeros
            (λ p. zeros)
            no_drives)))
      port_table
run_machine-Inv_example =
    run_machine-Inv interleaved noon 64 (some zeros) none (record { low = zeros; high = zeros })
      zeros (λ p. zeros) no_drives (omega arith, (omega arith, (omega arith, tt)))
