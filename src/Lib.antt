-- ===== src/Lib.antt =====
-- kvmulate: a model of the PC that the program emulates around KVM, and what was proved of it.
--
-- The program runs a guest under KVM. On an exit for a port or a memory access, system.c hands the
-- access to io.c or mmio.c, which look up the device that claims the address and call its
-- function; devices raise interrupt lines through irq.c. devices/devices.c registers the devices.
--
-- A component's state is a record, an operation a function of the state, and a C function that
-- can fail gives an Outcome (Prelude/Outcomes): it returns, an ASSERT of include/log.h aborts,
-- or it faults, which stands for what C leaves undefined: a call or an access through NULL and an
-- access outside an array. Integers are natural numbers with their wrap-around written out; an
-- int that may be -1 is a number of Prelude/Int. Arrays are functions of the index (Cells), of
-- which each access is checked against the size. Logging has no effect and is left out.
--
-- Which file models what (the names are those of the source, in small letters with underscores):
--   Irq          irq.c: irq_set, as the list of its calls, the newest first.
--   Io           io.c: lookup_handler, io_register_handler, io_remap_handler and the six accesses;
--                proofs in Io/Lookup (the search) and Io/Dispatch (the calls).
--   Mmio         mmio.c: getDevice, mmio_register_device, mmio_read, mmio_write; proofs in
--                Mmio/Lookup and Mmio/Data.
--   Exits        system.c: handle_io, handle_mmio; proofs in Exits/Streams (exits for several
--                elements) and Exits/Disk (through to the sectors of the disk).
--   MemoryMap    system.c: map_ram. LowMem: sys_getLowMem.
--   System       system.c: sys_create with sys_map, load_bios, load_bios_vga and the CPUs; proofs in
--                System/Regions, System/Regions/Guest (the guest's memory), System/Images (image files
--                of any length) and System/Creation.
--                System/Cpuid: fixupCPUID. System/Run: sys_run_vcpu; proofs below it.
--   SmallPorts   devices/x86/ps2_pos.c, bios_debug.c, parallelport.c, serialport.c and the debug and
--                VBE ports of devices/x86/vga/registers.c.
--   Handlers     the handlers that the initialisations of devices/x86 register.
--   Machine      devices/devices.c: the table of all ports over the state of all devices, with
--                Machine/Start (that state after the initialisations) and Machine/Owners (the
--                handlers by name); proofs in Machine/Ports (which handler has a port),
--                Machine/Devices (each device as if alone, by Io/Parts), Machine/Frames and
--                Machine/Isolation (what an access leaves alone) and Machine/Disk (exits for
--                sectors, by Io/Parts/Exits). Machine/Memory: the devices in memory space
--                (devices/x86/vga/vga.c) and sys_run; proofs in Machine/Window, Machine/Printing
--                (exits for words of the VGA's memory), Machine/Text (the frame that shows
--                them), Machine/Keys (a key of the host, on its way to the guest), Machine/Remap
--                (the guest moves the VGA's ROM and reads it at its new address), and
--                Machine/Invariant with Machine/Mapped and Machine/Steps (accesses to ports and
--                memory, keys and time in any order, by Io/Parts/Keeping and Mmio/Keeping).
--   I8042        devices/x86/i8042.c; proofs in I8042/Invariant and I8042/Protocol.
--   Ata          devices/x86/ata/controller.c, include/devices/x86/ata/ata_internal.h: the state;
--                Ata/Commands, Ata/Identify and Ata/Ports: the commands, build_identify_data and the
--                ports; Ata/ConfigSpace: the pciata functions. Proofs in Ata/Words (single
--                words), Ata/Transfer (writes), Ata/Reading (reads), Ata/Address (LBA and CHS),
--                Ata/Geometry (IDENTIFY), Ata/Drives (absent drives, ends of buffers) and below
--                Ata/ConfigSpace.
--   Files        lseek, read and write on a disk image, as a file of a fixed content and size.
--   Pci          devices/x86/pci.c, include/pci.h; proofs in Pci/Address, Pci/Devices,
--                Pci/Safety (what a device promises, and the bus) and Pci/Together (the
--                program's two devices).
--   Dma          devices/x86/i8237-dma.c; proofs in Dma/Program.
--   Floppy       devices/x86/floppy.c; proofs in Floppy/Commands, Floppy/Fifo, Floppy/Geometry.
--   Vga          devices/x86/vga/registers.c, include/devices/x86/vga/vga.h; proofs in
--                Vga/Invariant, Vga/Palette and Vga/Indexed. Vga/Ram: devices/x86/vga/ram.c;
--                proofs in Vga/Ram/Planes. Vga/Rom: devices/x86/vga/rom.c; proofs in
--                Vga/Rom/Window. Vga/Font: include/devices/x86/vga/font.h. Vga/Viewer:
--                devices/x86/vga/viewer.c, what is drawn; proofs in Vga/Viewer/Glyphs, Text and
--                Graphics. Vga/Viewer/Keys: its keys, which are compared with the scan code set
--                that is written down in Vga/Viewer/Layout.
--   Cmos         devices/x86/cmos.c; proofs in Cmos/Clock, Cmos/Invariant and Cmos/Memory.
--   Paravirt     devices/x86/qemu_paravirt.c; proofs in Paravirt/Items.
--   Main         main.c: the start on a host, its files and the exits of the guest.
--   Prelude      shared notation and lemmas: tests, outcomes, arrays, bits and bytes.
--   Tests        each theorem of the list below at a concrete input, and runs of the code.
--
-- Loops of the source are recursions on the number of rounds or on the list, so no fuel is needed:
-- the slots of the PCI table (256), the elements of an exit (its count), the words of a
-- transfer and the bytes of a command (the guest's list of accesses).
--
-- A loop with a number of rounds that C counts up is a recursion on the rounds that are left, which
-- starts with the number in the source: 16 lines and 8 columns of a glyph, 25 rows of 80 cells, 200
-- lines of 320 points. The exits that KVM_RUN returns with and the keys of SDL are lists.
--
-- Outside the model: KVM and the other system calls (their answers are the record Host of System, the
-- trace of irq_set and the mapped regions are what the program hands to them), the time that
-- localtime gives (an argument), the contents of the disk and BIOS images (arguments), SDL (its
-- surface is the pixels, its events a list), what is only logged, and the second thread: a key event
-- and a frame of the viewer are each one step between two accesses of the guest. A file is read and
-- written in full: short reads and errors of the host are not modelled, but that Linux reads nothing
-- where the number of bytes is a negative int (Files). Guest accesses come one
-- after the other, as the one virtual CPU makes them.
pub mod Prelude
pub mod Irq
pub mod Io
pub mod I8042
pub mod Files
pub mod Ata
pub mod LowMem
pub mod MemoryMap
pub mod Dma
pub mod Floppy
pub mod Pci
pub mod Mmio
pub mod Exits
pub mod Vga
pub mod Cmos
pub mod Paravirt
pub mod SmallPorts
pub mod Handlers
pub mod Machine
pub mod System
pub mod Main
pub mod Tests
