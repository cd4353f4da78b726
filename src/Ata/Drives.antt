-- ===== src/Ata/Drives.antt =====
-- devices/x86/ata/controller.c: a drive that is absent, and the accesses to a buffer that no check
-- guards.
use kvmulate.Prelude.{
  ℕ, ◌/◌, ◌%◌, ◌^◌, ◌≡◌, ok, fault, arith, ◌>>=◌, Cells, update, false, if◌then◌else◌, ◌==◌, none,
  some,
}
use kvmulate.Files.{File}
use kvmulate.Ata.{AtaController, Block, curr_dev, set_curr_dev, master_drive, slave_drive}
use kvmulate.Ata.Commands.{do_softreset}
use kvmulate.Ata.Identify.{build_identify_data}
use kvmulate.Ata.Ports.{pio_outb, pio_inb, pio_inw, pio_outw, x86_ata_init, is_slave}
use kvmulate.Ata.Words.{received, Sending}

-- While the current drive is absent, a byte write to any port but the one that selects the drive
-- changes nothing, and every byte read but that of the selection gives 0 and changes nothing; the
-- selection can still be read and changed.
pub absent_drive :
    (address val : ℕ) (c : AtaController)
    → (curr_dev c).is_present ≡ false
    → (pio_outb address val c ≡ (
        if address == 0x006
        then ok (
            let drive = if val / 2 ^ 4 % 2 == 1 then slave_drive else master_drive in
            let c' = record c { curr = drive } in
            set_curr_dev (record (curr_dev c') { reg = update (curr_dev c').reg 0x07 val }) c')
        else ok c))
      × (pio_inb address c
          ≡ ok ((if address == 0x006 then if is_slave c.curr then 0xB0 else 0xA0 else 0), c))
unfolding pio_outb pio_inb
absent_drive address val c absent = ground arith

-- The data port has no such check, and its buffers have none for NULL: a word read or written on
-- a drive for which no transfer was ever started, such as an absent one, goes through NULL.
pub data_port_null :
    (val : ℕ) (c : AtaController)
    → (curr_dev c).read_buffer ≡ none
    → (curr_dev c).write_buffer ≡ none
    → (pio_inw 0 c ≡ fault) × (pio_outw 0 val c ≡ fault)
unfolding pio_inw pio_outw
data_port_null val c r w = ground arith

-- A software reset clears the read buffer, so before the first read it writes through NULL: after
-- the initialisation, whatever the disk, every write of the device control register with the
-- reset bit set does.
pub early_reset :
    (f : File) (val : ℕ) → val / 4 % 2 ≡ 1 → (x86_ata_init (some f) >>= pio_outb 0x206 val) ≡ fault
unfolding x86_ata_init pio_outb do_softreset build_identify_data
early_reset f val reset = ground arith

-- Nothing stops the guest at the end of a transfer: once the last word of a sector buffer was
-- written, one more word is stored behind the end of the buffer.
pub write_overrun :
    (c : AtaController) (bytes : Cells) (size val : ℕ)
    → pio_outw 0 val (received c bytes size) ≡ fault
unfolding pio_outw
write_overrun c bytes size val = ground arith

-- Likewise one more word is read from behind the end of a sector buffer that was read to its end.
pub read_overrun :
    (b : Block) (start c : AtaController) → Sending b start b.size c → pio_inw 0 c ≡ fault
unfolding pio_inw
read_overrun b start c s = ground arith
