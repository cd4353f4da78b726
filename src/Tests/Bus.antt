-- ===== src/Tests/Bus.antt =====
-- devices/x86/pci.c: the PCI bus with the program's devices.
use kvmulate.Prelude.{
  ◌%◌, ◌+◌, ◌<◌, ◌≡◌, refl, List, [], ◌∷◌, some, arith, ◌>>=◌, Cells, zeros, update, put32, run,
  Safe, Returns,
}
use kvmulate.Pci.{Pci, pci_outl, pci_inl, x86_pci_init, get_device, write_address}
use kvmulate.Pci.Devices.{register_all, listed, registered-slots, get_device-register_all}
use kvmulate.Ata.ConfigSpace.{ata_conf, ata_pci_dev}
use kvmulate.Ata.ConfigSpace.Access.{dword_round_trip}
use kvmulate.Pci.Safety.{
  Access, Inv, step, run_bus-Inv, in_byte, in_long, out_byte, out_address, out_data,
}
use kvmulate.Pci.Together.{program_devices, program_devices-AllServe}
use kvmulate.Vga.Rom.{Rom, x86_vga_rom_init}
use kvmulate.Vga.Rom.Window.{Shows}
use kvmulate.Machine.{Machine}
use kvmulate.Machine.Memory.{run_guest}
use kvmulate.Machine.Remap.{vga_function, remap_exits, HandsBack, rom_shown}
use kvmulate.Tests.Table.{machine}

abbrev no_state : Pci Cells
no_state = x86_pci_init

abbrev bus : Pci Cells
bus = write_address 0x80000010 (register_all (ata_pci_dev ∷ []) x86_pci_init)

get_device-register_all_example : get_device bus ≡ some ata_pci_dev
unfolding listed
get_device-register_all_example =
    get_device-register_all (ata_pci_dev ∷ []) 0x80000010 (omega arith) (omega arith)

bus_enabled : bus.configspace ≡ 1
unfolding write_address
bus_enabled = refl

bus_index : bus.index < 256
unfolding write_address
bus_index = omega arith

dword_round_trip_example :
    Returns (λ q. q.0 ≡ 0) (pci_outl 4 0xFFFFFFFF bus ata_conf >>= λ q. pci_inl 4 q.0 q.1)
unfolding write_address
dword_round_trip_example =
    dword_round_trip bus ata_pci_dev ata_conf 0xFFFFFFFF get_device-register_all_example refl refl
      bus_enabled bus_index (omega arith)

abbrev accesses : List Access
accesses =
    out_address 0x80000010 ∷ out_data 0 0xFFFFFFFF ∷ in_long 4 ∷ out_byte 3 0xFF ∷ in_byte 7 ∷ []

abbrev image : Cells
image i = i % 256

-- The program's two devices.
abbrev state : Rom × Cells
state = (x86_vga_rom_init (some image), ata_conf)

image_shown : Shows image (x86_vga_rom_init (some image))
unfolding x86_vga_rom_init
image_shown = (λ e. omega arith, refl)

run_bus-Inv_example :
    Safe
      (Inv (λ t. Shows image t.0))
      (run step accesses (register_all program_devices x86_pci_init, state))
run_bus-Inv_example =
    run_bus-Inv (λ t. Shows image t.0) program_devices state accesses (omega arith)
      (program_devices-AllServe image) image_shown

-- The whole machine with the image.
abbrev with_image : Machine
with_image = record machine { functions = state }

vga_first : with_image.bus.slots 0 ≡ some vga_function
unfolding listed
vga_first = registered-slots program_devices 0 (omega arith)

image_loaded : with_image.functions.0.rom_data ≡ some image
unfolding x86_vga_rom_init
image_loaded = refl

-- A write to the address 0xF0000005 and a read from 0xF0000010.
rom_shown_example :
    Returns
      (HandsBack (
        put32 zeros 0 0x80000030
        ∷ put32 zeros 0 0xF0000001
        ∷ zeros
        ∷ update zeros 0 (image 16)
        ∷ []))
      (run_guest
        (remap_exits
          (put32 zeros 0 0x80000030)
          (put32 zeros 0 0xF0000001)
          zeros
          zeros
          0xF0000005
          0xF0000010)
        with_image)
rom_shown_example =
    rom_shown with_image image (put32 zeros 0 0x80000030) (put32 zeros 0 0xF0000001) zeros zeros
      0xF0000000 5 16 vga_first image_loaded refl refl refl (omega arith) (omega arith)
      (omega arith) (omega arith) (omega arith)

abbrev first_register : Pci Cells
first_register = write_address 0x80000000 (register_all (ata_pci_dev ∷ []) x86_pci_init)

first_register_found : get_device first_register ≡ some ata_pci_dev
unfolding listed
first_register_found =
    get_device-register_all (ata_pci_dev ∷ []) 0x80000000 (omega arith) (omega arith)

first_enabled : first_register.configspace ≡ 1
unfolding write_address
first_enabled = refl

first_index : first_register.index + 1 < 4
unfolding write_address
first_index = omega arith
