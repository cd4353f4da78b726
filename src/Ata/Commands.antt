-- ===== src/Ata/Commands.antt =====
-- devices/x86/ata/controller.c: the commands. `|` joins the fields of the block address.
use kvmulate.Prelude.{
  ℕ, ◌+◌, ◌-◌, ◌*◌, ◌/◌, ◌%◌, ◌^◌, bit_or, Bool, true, false, Option, none, some, Outcome, ok,
  abort, fault, assert, ◌>>=◌, ◌>>◌, not, Cells, zeros, update, fill, copy, ltb, ◌==◌,
  if◌then◌else◌,
}
use kvmulate.Irq.{irq_set}
use kvmulate.Files.{seek, read_file}
use kvmulate.Ata.{
  AtaController, DeviceType, dvd_rom, Block, master_drive, curr_dev, set_curr_dev, set_ok_status,
  reg_error, reg_sector_count, reg_sector_number, reg_cylinder_low, reg_cylinder_high,
  reg_device_head, reg_status, status_drdy, status_drq, error_abrt,
}

abbrev reset_reg : Cells
reset_reg =
    set_ok_status status_drdy (update (update zeros reg_sector_count 0x01) reg_sector_number 0x01)

-- memset(pDev->readBuffer,0,512), which follows the pointer unchecked.
clear_read_buffer : Option Block → Outcome (Option Block)
clear_read_buffer none = fault
clear_read_buffer (some b) =
    if ltb b.size 512 then fault else ok (some (record b { bytes = fill b.bytes 0 512 0 }))

-- The device is always the current one; afterwards the master is.
unfoldable pub do_softreset : AtaController → Outcome AtaController
unfolding clear_read_buffer
do_softreset c = do
  let d = curr_dev c
  buffer ← clear_read_buffer d.read_buffer
  let c' = set_curr_dev (record d { read_buffer = buffer; reg = reset_reg }) c
  ok (record c' { curr = master_drive; calls = irq_set 14 0 c.calls })

is_dvd : DeviceType → Bool
is_dvd dvd_rom = true
is_dvd _ = false

cmd_identify_packet_device : AtaController → Outcome AtaController
unfolding is_dvd
cmd_identify_packet_device c =
    let d = curr_dev c in
    if is_dvd d.type
    then abort
    else ok (
        set_curr_dev (record d { reg = update (update d.reg reg_error error_abrt) reg_status 0x41 })
          c)

-- ((DEVICE_HEAD & 0xF) << 24) | (CYLINDER_HIGH << 16) | (CYLINDER_LOW << 8) | SECTOR_NUMBER
unfoldable pub lba_of_reg : Cells → ℕ
lba_of_reg reg =
    bit_or
      (bit_or (bit_or (reg reg_device_head % 16 * 2 ^ 24) (reg reg_cylinder_high * 2 ^ 16))
        (reg reg_cylinder_low * 2 ^ 8))
      (reg reg_sector_number)

-- (((c * 255) + h) * 63) + s - 1, as a uint32
unfoldable pub chs_of_reg : Cells → ℕ
chs_of_reg reg =
    let s = reg reg_sector_number in
    let h = reg reg_device_head % 16 in
    let c = bit_or (reg reg_cylinder_high * 2 ^ 8) (reg reg_cylinder_low) in
    ((c * 255 + h) * 63 + s + 2 ^ 32 - 1) % 2 ^ 32

-- ((DEVICE_HEAD >> 6) & 1) == 1
unfoldable pub is_lba : Cells → Bool
is_lba reg = reg reg_device_head / 2 ^ 6 % 2 == 1

unfoldable pub cmd_write_sectors : AtaController → Outcome AtaController
unfolding is_lba lba_of_reg
cmd_write_sectors c = do
  let d = curr_dev c
  let count = d.reg reg_sector_count
  assert (is_lba d.reg)
  assert (not (count == 0))
  ok (
      set_curr_dev
        (record d {
          write_buffer = some (record { size = count * 512; bytes = zeros });
          write_buffer_offset = 0;
          write_buffer_size = count * 512;
          write_buffer_lba = lba_of_reg d.reg;
          reg = set_ok_status (status_drdy + status_drq) d.reg;
        })
        c)

-- A count of 0 stands for 256.
unfoldable pub read_size : Cells → ℕ
read_size reg = (if reg reg_sector_count == 0 then 256 else reg reg_sector_count) * 512

unfoldable pub read_lba : Cells → ℕ
unfolding is_lba lba_of_reg chs_of_reg
read_lba reg = if is_lba reg then lba_of_reg reg else chs_of_reg reg

unfoldable pub cmd_read_sectors : AtaController → Outcome AtaController
unfolding read_size read_lba
cmd_read_sectors c =
    let d = curr_dev c in
    let size = read_size d.reg in
    let (bytes, file) = read_file size zeros (seek (read_lba d.reg * 512) d.backingfile) in
    let c' =
      set_curr_dev
        (record d {
          backingfile = file;
          read_buffer = some (record { size = size; bytes = bytes });
          read_buffer_offset = 0;
          read_buffer_size = size;
          reg = set_ok_status (status_drdy + status_drq) d.reg;
        })
        c in
    ok (record c' { calls = irq_set 14 1 c.calls })

-- The words, low byte first, as memcpy finds them.
abbrev pub word_bytes : Cells → Cells
word_bytes words i = if i % 2 == 0 then words (i / 2) % 256 else words (i / 2) / 256

cmd_identify_device : AtaController → Outcome AtaController
unfolding is_dvd do_softreset
cmd_identify_device c =
    let d = curr_dev c in
    if is_dvd d.type
    then do_softreset c
    else ok (
        set_curr_dev
          (record d {
            read_buffer =
                some (record { size = 512; bytes = copy zeros 0 (word_bytes d.identify) 0 512 });
            read_buffer_offset = 0;
            read_buffer_size = 512;
            reg = set_ok_status (status_drdy + status_drq) d.reg;
          })
          c)

cmd_initialize_device_parameters : AtaController → Outcome AtaController
cmd_initialize_device_parameters c =
    let d = curr_dev c in
    let c' = set_curr_dev (record d { reg = set_ok_status status_drdy d.reg }) c in
    ok (record c' { calls = irq_set 14 1 c.calls })

unfoldable pub cmd_recalibrate : AtaController → Outcome AtaController
cmd_recalibrate c =
    let d = curr_dev c in
    let c' = set_curr_dev (record d { reg = set_ok_status status_drdy d.reg }) c in
    ok (record c' { calls = irq_set 14 1 c.calls })

unfoldable pub do_command : ℕ → AtaController → Outcome AtaController
unfolding cmd_recalibrate cmd_write_sectors cmd_read_sectors cmd_identify_device
    cmd_identify_packet_device cmd_initialize_device_parameters
do_command cmd c =
    let c' = record c { calls = irq_set 14 0 c.calls } in
    if cmd == 0x10
    then cmd_recalibrate c'
    else if cmd == 0x30
    then cmd_write_sectors c'
    else if cmd == 0x20
    then cmd_read_sectors c'
    else if cmd == 0xEC
    then cmd_identify_device c'
    else if cmd == 0xA1
    then cmd_identify_packet_device c'
    else if cmd == 0x91
    then cmd_initialize_device_parameters c'
    else abort
