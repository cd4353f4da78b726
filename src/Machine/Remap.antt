-- ===== src/Machine/Remap.antt =====
-- system.c, io.c, mmio.c, devices/x86/pci.c and devices/x86/vga/rom.c: a guest of the whole machine that
-- moves the VGA's ROM, and the exits for its addresses.
use kvmulate.Prelude.{
  ℕ, ◌+◌, ◌/◌, ◌%◌, ◌^◌, ◌<◌, ◌≡◌, ◌≢◌, refl, bit_and, true, false, List, [], ◌∷◌, map, some, ok,
  arith, Cells, get32, update, Returns, Returns->>=,
}
use kvmulate.Prelude.Bits.{and_split, and_mask, bit_and-zero}
use kvmulate.Io.{IoHandler, io_outl}
use kvmulate.Mmio.{MmioDevice, mmio_register_device, mmio_read, mmio_write}
use kvmulate.Mmio
use kvmulate.Exits.{handle_io, handle_mmio, out_loop}
use kvmulate.System.Run.{VmExit, io, mmio, Loop, running, done, sys_run_vcpu}
use kvmulate.Pci.{PciDev, Pci, write_address, pci_outl}
use kvmulate.Pci
use kvmulate.Pci.Devices.{numbered, get_device-first}
use kvmulate.Pci.Together.{dev_part, rom_part}
use kvmulate.Vga.Rom.{Rom, vga_pci_dev}
use kvmulate.Vga.Rom.Window.{
  moved_to, vgarom_writel-moved_to, vgarom_bios_readb-moved_to, vgarom_bios_writeb-moved_to,
}
use kvmulate.Machine.{Machine, port_table}
use kvmulate.Machine.Owners.{handler_of, registered}
use kvmulate.Machine.Ports.{lookup-owner, of_table}
use kvmulate.Machine.Memory.{memory_devices, device_part, pcirom, run_guest}
use kvmulate.Machine.Memory

-- The VGA's PCI device, as the first of the bus.
abbrev pub vga_function : PciDev (Rom × Cells)
vga_function = numbered 0 (dev_part rom_part vga_pci_dev)

-- The state after the guest selected the register of the ROM's address, and after its write there.
abbrev selected : Machine → Machine
selected m = record m { bus = write_address 0x80000030 m.bus }

abbrev moved : ℕ → Machine → Machine
moved address m = record (selected m) {
  functions = (moved_to address m.functions.0, m.functions.1);
}

abbrev table : List (IoHandler Machine)
table = map handler_of registered

module _ (m : Machine) (page : Cells) where
  select_lem :
      get32 page 0 ≡ 0x80000030 → handle_io table true 0xCF8 4 1 0 page m ≡ ok (page, selected m)
  unfolding handle_io out_loop io_outl pci_outl
  select_lem value = rw (io_outl, lookup-owner 0xCF8 (omega arith), value) refl

  found :
      m.bus.slots 0 ≡ some vga_function
      → kvmulate.Pci.get_device (selected m).bus ≡ some vga_function
  unfolding write_address
  found present = get_device-first (selected m).bus vga_function present refl

  module _ (address : ℕ) (present : m.bus.slots 0 ≡ some vga_function)
      (aligned : address % 0x20000 ≡ 0) (other : address ≢ 0xC0000) where
    pci_lem :
        pci_outl 4 (address + 1) (selected m).bus m.functions
        ≡ ok ((selected m).bus, (moved_to address m.functions.0, m.functions.1))
    unfolding pci_outl write_address
    pci_lem =
        rw (pci_outl, found present, vgarom_writel-moved_to m.functions.0 address aligned other)
          refl

    move_lem :
        get32 page 0 ≡ address + 1
        → handle_io table true 0xCFC 4 1 0 page (selected m) ≡ ok (page, moved address m)
    unfolding handle_io out_loop io_outl
    move_lem value = rw (io_outl, lookup-owner 0xCFC (omega arith), value, pci_lem) refl

rom_address :
    (address offset : ℕ)
    → address % 0x20000 ≡ 0
    → address < 2 ^ 32
    → offset < 0x20000
    → bit_and (address + offset) 0xFFFE0000 ≡ address
rom_address address offset aligned word inside = omega (
  arith,
  and_split 17 (address + offset) 0x7FFF 0 (omega arith),
  and_mask 15 ((address + offset) / 2 ^ 17),
  bit_and-zero ((address + offset) % 2 ^ 17),
)

module _ (m : Machine) (address offset : ℕ) (aligned : address % 0x20000 ≡ 0) (low : address ≢ 0)
    (other : address ≢ 0xC0000) (word : address < 2 ^ 32) (inside : offset < 0x20000) where
  -- The ROM comes before the planes in the list.
  rom_device :
      kvmulate.Mmio.get_device (address + offset) (memory_devices (moved address m))
      ≡ some (device_part kvmulate.Machine.Memory.rom_part (pcirom address))
  unfolding memory_devices mmio_register_device kvmulate.Mmio.get_device
  rom_device = ground (arith, rom_address address offset aligned word inside)

  read_lem :
      (image page : Cells)
      → m.functions.0.rom_data ≡ some image
      → handle_mmio
          (memory_devices (moved address m))
          false
          (address + offset)
          1
          page
          (moved address m)
        ≡ ok (update page 0 (image offset), moved address m)
  unfolding mmio_read
  read_lem image page loaded =
      rw
        (
          mmio_read,
          rom_device,
          vgarom_bios_readb-moved_to m.functions.0 address offset other word inside image loaded,
        )
        refl

  write_lem :
      (bytes : Cells)
      → handle_mmio
          (memory_devices (moved address m))
          true
          (address + offset)
          1
          bytes
          (moved address m)
        ≡ ok (bytes, moved address m)
  unfolding mmio_write
  write_lem bytes =
      rw
        (
          mmio_write,
          rom_device,
          vgarom_bios_writeb-moved_to m.functions.0 address offset other word inside (bytes 0),
        )
        refl

-- The exits of a guest that writes to the ROM's address register, through the two ports of the PCI bus,
-- then a byte to an address and reads one from another.
abbrev pub remap_exits : Cells → Cells → Cells → Cells → ℕ → ℕ → List VmExit
remap_exits select target bytes page to from =
    io true 0xCF8 4 1 0 select
    ∷ io true 0xCFC 4 1 0 target
    ∷ mmio true to 1 bytes
    ∷ mmio false from 1 page
    ∷ []

abbrev pub HandsBack : List Cells → Loop Machine → Type 0
HandsBack pages (running pages' n) = pages' ≡ pages
HandsBack pages (done pages' n) = ⊥

-- The file of the VGA's BIOS was there at the start, and the VGA's device is the first of the PCI bus.
-- A guest of the whole machine selects the ROM's address register at port 0xCF8 and writes there, at
-- port 0xCFC, a multiple of 128 KB below 4 GB, other than 0 and 0xC0000, with bit 0 set. Then the
-- exits for the 128 KB from that address on are the ROM's: one that writes a byte changes nothing of
-- it, and one that reads a byte hands back the image's at the offset. An address that is the guest's
-- RAM does not come as an exit.
pub rom_shown :
    (m : Machine) (image select target bytes page : Cells) (address to from : ℕ)
    → m.bus.slots 0 ≡ some vga_function
    → m.functions.0.rom_data ≡ some image
    → get32 select 0 ≡ 0x80000030
    → get32 target 0 ≡ address + 1
    → address % 0x20000 ≡ 0
    → address ≢ 0
    → address ≢ 0xC0000
    → address < 2 ^ 32
    → to < 0x20000
    → from < 0x20000
    → Returns
        (HandsBack (select ∷ target ∷ bytes ∷ update page 0 (image from) ∷ []))
        (run_guest (remap_exits select target bytes page (address + to) (address + from)) m)
unfolding run_guest sys_run_vcpu
rom_shown m image select target bytes page address to from present loaded sel tgt aligned low other
      word inside inside' =
    let es = remap_exits select target bytes page (address + to) (address + from) in
    let Handed = HandsBack (select ∷ target ∷ bytes ∷ update page 0 (image from) ∷ []) in
    Returns->>= (λ hs. Returns Handed (sys_run_vcpu hs memory_devices es m)) Handed port_table
      (λ hs. sys_run_vcpu hs memory_devices es m)
      (of_table (λ hs. Returns Handed (sys_run_vcpu hs memory_devices es m))
        (rw
          (
            select_lem m select sel,
            move_lem m target address present aligned other tgt,
            write_lem m address to aligned low other word inside bytes,
            read_lem m address from aligned low other word inside' image page loaded,
          )
          refl))
      (λ hs h. h)
