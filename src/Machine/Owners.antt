-- ===== src/Machine/Owners.antt =====
-- devices/devices.c: the handlers by name, in the order of their ports and in that of registration.
use kvmulate.Prelude.{
  ℕ, ◌/◌, ◌%◌, ◌&&◌, List, [], ◌∷◌, Option, none, some, ltb, leb, ◌==◌, if◌then◌else◌,
}
use kvmulate.Io.{IoHandler}
use kvmulate.Io.Parts.{handler_part}
use kvmulate.SmallPorts.{
  pos_handler, biosdebug_handler, parport_handler, serport_handler, vgadbg_handler, vbe_handler,
}
use kvmulate.Dma.{first, second}
use kvmulate.Ata.Ports.{ata_handler}
use kvmulate.Handlers.{
  cmos_handler, i8237_handler, i8237_page_handler, pci_handler, qemupara_handler, kbd_handler,
  vgareg_handler, floppy_handler,
}
use kvmulate.Machine.{
  Machine, cmos_part, pos_part, debug_part, dma_part, bus_part, firmware_part, keyboard_part,
  vga_part, fdc_part, ata_part,
}

-- What the guest finds at a port, from the lowest port on.
pub data Owner : Type 0 where
  dma_first dma_second dma_page keyboard rtc system_control vbe disk : Owner
  parallel_first parallel_second serial_first serial_second serial_third serial_fourth : Owner
  vga_first vga_second floppy bios_debug vga_debug firmware pci : Owner

abbrev pub handler_of : Owner → IoHandler Machine
handler_of Owner.dma_first = handler_part dma_part (i8237_handler first 0x00 0xFFF0)
handler_of Owner.dma_second = handler_part dma_part (i8237_handler second 0xC0 0xFFE0)
handler_of Owner.dma_page = handler_part dma_part i8237_page_handler
handler_of Owner.keyboard = handler_part keyboard_part kbd_handler
handler_of Owner.rtc = handler_part cmos_part cmos_handler
handler_of Owner.system_control = handler_part pos_part pos_handler
handler_of Owner.vbe = vbe_handler
handler_of Owner.disk = handler_part ata_part ata_handler
handler_of Owner.parallel_first = parport_handler 0x378
handler_of Owner.parallel_second = parport_handler 0x278
handler_of Owner.serial_first = serport_handler 0x3F8
handler_of Owner.serial_second = serport_handler 0x2F8
handler_of Owner.serial_third = serport_handler 0x3E8
handler_of Owner.serial_fourth = serport_handler 0x2E8
handler_of Owner.vga_first = handler_part vga_part (vgareg_handler 0x3C0)
handler_of Owner.vga_second = handler_part vga_part (vgareg_handler 0x3D0)
handler_of Owner.floppy = handler_part fdc_part floppy_handler
handler_of Owner.bios_debug = handler_part debug_part biosdebug_handler
handler_of Owner.vga_debug = vgadbg_handler
handler_of Owner.firmware = handler_part firmware_part qemupara_handler
handler_of Owner.pci = handler_part bus_part pci_handler

-- Ranges of ports `[from, to)`, in ascending order.
abbrev pub ranges : List (ℕ × ℕ × Owner)
ranges =
    (0x000, 0x010, Owner.dma_first)
    ∷ (0x060, 0x068, Owner.keyboard)
    ∷ (0x080, 0x090, Owner.dma_page)
    ∷ (0x090, 0x098, Owner.system_control)
    ∷ (0x0C0, 0x0E0, Owner.dma_second)
    ∷ (0x1CE, 0x1D0, Owner.vbe)
    ∷ (0x1F0, 0x1F8, Owner.disk)
    ∷ (0x278, 0x27C, Owner.parallel_second)
    ∷ (0x2E8, 0x2F0, Owner.serial_fourth)
    ∷ (0x2F8, 0x300, Owner.serial_second)
    ∷ (0x378, 0x37C, Owner.parallel_first)
    ∷ (0x3C0, 0x3D0, Owner.vga_first)
    ∷ (0x3D0, 0x3E0, Owner.vga_second)
    ∷ (0x3E8, 0x3F0, Owner.serial_third)
    ∷ (0x3F0, 0x3F8, Owner.floppy)
    ∷ (0x3F8, 0x400, Owner.serial_first)
    ∷ (0x402, 0x403, Owner.bios_debug)
    ∷ (0x500, 0x501, Owner.vga_debug)
    ∷ (0x510, 0x512, Owner.firmware)
    ∷ (0xCF8, 0xD00, Owner.pci)
    ∷ []

-- The only range that contains the port.
abbrev pub in_ranges : ℕ → List (ℕ × ℕ × Owner) → Option Owner
in_ranges port [] = none
in_ranges port ((from, to, o) ∷ rs) =
    if leb from port && ltb port to then some o else in_ranges port rs

-- Besides its own two ports the clock has those at every multiple of 256 above.
abbrev pub owner : ℕ → Option Owner
owner port = if port % 256 / 2 == 0x38 then some Owner.rtc else in_ranges port ranges

-- The order of registration, and the search in it.
abbrev pub registered : List Owner
registered =
    Owner.rtc ∷ Owner.system_control ∷ Owner.bios_debug ∷ Owner.dma_first ∷ Owner.dma_second
    ∷ Owner.dma_page ∷ Owner.pci ∷ Owner.firmware ∷ Owner.keyboard ∷ Owner.parallel_first
    ∷ Owner.parallel_second ∷ Owner.serial_first ∷ Owner.serial_second ∷ Owner.serial_third
    ∷ Owner.serial_fourth ∷ Owner.vga_first ∷ Owner.vga_second ∷ Owner.vga_debug ∷ Owner.vbe
    ∷ Owner.floppy ∷ Owner.disk ∷ []
