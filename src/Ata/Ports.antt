-- ===== src/Ata/Ports.antt =====
-- devices/x86/ata/controller.c: the port handlers.
use kvmulate.Prelude.{
  ℕ, ◌+◌, ◌*◌, ◌/◌, ◌%◌, ◌^◌, Bool, true, false, List, Option, none, some, Outcome, ok, abort,
  fault, assert, ◌>>=◌, ◌>>◌, not, zeros, update, get16, put16, ltb, leb, ◌==◌, if◌then◌else◌,
}
use kvmulate.Irq.{irq_set}
use kvmulate.Files.{File, seek, write_file}
use kvmulate.Io.{IoHandler}
use kvmulate.Ata.{
  AtaDev, AtaController, DeviceType, disk, Block, Drive, master_drive, slave_drive, curr_dev,
  set_curr_dev, set_status, set_ok_status, reg_error, reg_features, reg_sector_count,
  reg_sector_number, reg_cylinder_low, reg_cylinder_high, reg_device_head, reg_status, reg_command,
  reg_device_control, reg_alternate_status, status_drdy, status_drq,
}
use kvmulate.Ata.Commands.{do_softreset, do_command}
use kvmulate.Ata.Identify.{build_identify_data}

-- pCont->pCurrDev->reg[i] = val
abbrev pub write_reg : ℕ → ℕ → AtaController → AtaController
write_reg i val c = let d = curr_dev c in set_curr_dev (record d { reg = update d.reg i val }) c

-- (val >> 4) & 1
abbrev selected : ℕ → Drive
selected val = if val / 2 ^ 4 % 2 == 1 then slave_drive else master_drive

-- A write of the device control register goes on into the features register: there is no break.
abbrev write_control : ℕ → AtaController → AtaController
write_control val c = write_reg reg_features val (write_reg reg_device_control val c)

present_outb : ℕ → ℕ → AtaController → Outcome AtaController
unfolding do_command do_softreset
present_outb address val c =
    if address == 0x007
    then do_command val
        (let c' = write_reg reg_command val c in record c' { calls = irq_set 14 0 c.calls })
    else if address == 0x206
    then if val / 2 ^ 2 % 2 == 1
      then do_softreset c >>= (λ c'. ok (write_control val c'))
      else ok (write_control val c)
    else if address == 0x001
    then ok (write_reg reg_features val c)
    else if address == 0x005
    then ok (write_reg reg_cylinder_high val c)
    else if address == 0x004
    then ok (write_reg reg_cylinder_low val c)
    else if address == 0x002
    then ok (write_reg reg_sector_count val c)
    else if address == 0x003
    then ok (write_reg reg_sector_number val c)
    else abort

unfoldable pub pio_outb : ℕ → ℕ → AtaController → Outcome AtaController
unfolding present_outb
pio_outb address val c =
    if address == 0x202
    then ok c
    else if address == 0x006
    then ok (write_reg reg_device_head val (record c { curr = selected val }))
    else if not (curr_dev c).is_present
    then ok c
    else present_outb address val c

pub is_slave : Drive → Bool
is_slave slave_drive = true
is_slave master_drive = false

present_inb : ℕ → AtaController → Outcome (ℕ × AtaController)
present_inb address c =
    let d = curr_dev c in
    if address == 0x001
    then ok (d.reg reg_error, c)
    else if address == 0x002
    then ok (d.reg reg_sector_count, c)
    else if address == 0x003
    then ok (d.reg reg_sector_number, c)
    else if address == 0x007
    then ok (d.reg reg_status, record c { calls = irq_set 14 0 c.calls })
    else if address == 0x206
    then ok (d.reg reg_alternate_status, c)
    else abort

-- handler->base is 0x1F0, so base + address is 0x3F4 at the offset 0x204.
unfoldable pub pio_inb : ℕ → AtaController → Outcome (ℕ × AtaController)
unfolding is_slave present_inb
pio_inb address c =
    if address == 0x202
    then ok (0x00, c)
    else if 0x1F0 + address == 0x3F4
    then ok (0x00, c)
    else if address == 0x006
    then ok ((if is_slave c.curr then 0xB0 else 0xA0), c)
    else if not (curr_dev c).is_present
    then ok (0x00, c)
    else present_inb address c

-- A uint16 at a byte offset of a block that may be NULL.
abbrev pub load_word : Option Block → ℕ → Outcome ℕ
load_word none i = fault
load_word (some b) i = if ltb (i + 1) b.size then ok (get16 b.bytes i) else fault

abbrev pub store_word : Option Block → ℕ → ℕ → Outcome Block
store_word none i v = fault
store_word (some b) i v =
    if ltb (i + 1) b.size then ok (record b { bytes = put16 b.bytes i v }) else fault

-- The status after a word was read: the last one of all ends the transfer.
after_word : AtaDev → AtaDev
after_word d =
    let offset = d.read_buffer_offset + 2 in
    let d' = record d { read_buffer_offset = offset } in
    if leb d.read_buffer_size offset
    then record d' { reg = set_status status_drdy d.reg }
    else if offset % 512 == 0
    then record d' { reg = set_ok_status (status_drdy + status_drq) d.reg }
    else d'

unfoldable pub pio_inw : ℕ → AtaController → Outcome (ℕ × AtaController)
unfolding after_word
pio_inw address c = do
  let d = curr_dev c
  assert (address == 0)
  val ← load_word d.read_buffer d.read_buffer_offset
  ok (val, set_curr_dev (after_word d) c)

-- The whole buffer goes to the file once its last word has come.
unfoldable pub flush : Block → AtaDev → AtaDev
flush b d = record d {
  backingfile =
      write_file d.write_buffer_size b.bytes (seek (d.write_buffer_lba * 512) d.backingfile);
  reg = set_status status_drdy d.reg;
}

unfoldable pub pio_outw : ℕ → ℕ → AtaController → Outcome AtaController
unfolding flush
pio_outw address val c = do
  let d = curr_dev c
  assert (address == 0)
  b ← store_word d.write_buffer d.write_buffer_offset val
  let offset = d.write_buffer_offset + 2
  let d' = record d { write_buffer = some b; write_buffer_offset = offset }
  let flushed = set_curr_dev (flush b d') c
  if offset == d.write_buffer_size
      then ok (record flushed { calls = irq_set 14 1 c.calls })
      else ok (set_curr_dev d' c)

abbrev pub no_device : AtaDev
no_device = record {
  is_present = false;
  type = DeviceType.invalid;
  backingfile = record { size = 0; byte = zeros; position = 0 };
  identify = zeros;
  reg = zeros;
  read_buffer = none;
  read_buffer_offset = 0;
  read_buffer_size = 0;
  write_buffer = none;
  write_buffer_offset = 0;
  write_buffer_size = 0;
  write_buffer_lba = 0;
}

-- open("hdd.img") gave the file `f`; the assertion is that it gave one.
unfoldable pub x86_ata_init : Option File → Outcome AtaController
unfolding build_identify_data
x86_ata_init none = abort
x86_ata_init (some f) = ok (record {
  master = build_identify_data (record no_device {
    is_present = true;
    type = disk;
    backingfile = f;
    reg = update zeros reg_status status_drdy;
  });
  slave = no_device;
  curr = master_drive;
  calls = List.[];
})

-- The handler that x86_ata_init registers. It has no functions for double words.
abbrev pub ata_handler : IoHandler AtaController
ata_handler = record {
  base = 0x1F0;
  mask = 0xFDF8;
  inb = some (λ c address. pio_inb address c);
  inw = some (λ c address. pio_inw address c);
  inl = none;
  outb = some (λ c address val. pio_outb address val c);
  outw = some (λ c address val. pio_outw address val c);
  outl = none;
}
