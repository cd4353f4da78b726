-- ===== src/Floppy.antt =====
-- devices/x86/floppy.c: the floppy controller at the ports from 0x3F0 on, with its one drive. It
-- hands sectors to the DMA controller, which writes the guest's low memory. The nine bytes of a
-- command stand at constant indices of the fifo of 522 bytes; every other access is checked.
pub mod Commands
pub mod Fifo
pub mod Geometry
use kvmulate.Prelude.{
  ℕ, ◌+◌, ◌-◌, ◌*◌, ◌/◌, ◌%◌, ◌^◌, bit_and, bit_or, Bool, List, Option, none, some, Outcome, ok,
  abort, fault, assert, ◌>>=◌, ◌>>◌, ltb, leb, ◌==◌, if◌then◌else◌, Cells, zeros, update, fetch,
  store,
}
use kvmulate.Irq.{IrqLevel, irq_set}
use kvmulate.Files.{File, seek, read_file}
use kvmulate.LowMem.{LowMem}
use kvmulate.Dma.{Dma, dma_transfer_from_device}

pub record Fdc : Type 0 where
  pub sra : ℕ
  pub srb : ℕ
  pub msr : ℕ
  pub dor : ℕ
  pub ccr : ℕ
  pub dsr : ℕ
  pub st : Cells
  pub fifo : Cells
  pub fifondx : ℕ
  pub fifolen : ℕ
  pub cyl : ℕ
  pub head : ℕ
  pub sect : ℕ
  pub image : Option File
  pub dma_buffer : Cells
  -- What the controller acts on outside: the DMA controller, memory and the interrupt line.
  pub dma : Dma
  pub mem : LowMem
  pub calls : List IrqLevel

abbrev pub fifo_size : ℕ
fifo_size = 522

-- MSR_RQM and MSR_RQM | MSR_DIO
abbrev pub msr_rqm : ℕ
msr_rqm = 0x80

abbrev pub msr_rqm_dio : ℕ
msr_rqm_dio = 0xC0

abbrev pub raise : ℕ → Fdc → Fdc
raise level f = record f { calls = irq_set 6 level f.calls }

do_reset : Fdc → Fdc
do_reset f = record f {
  sra = 0;
  srb = 0;
  msr = msr_rqm;
  dor = 0;
  ccr = 0;
  dsr = 0;
  fifondx = 0;
  fifolen = 0;
}

-- The byte that leaves the fifo, and the end of the result phase after the last one.
after_fifo_read : Fdc → Fdc
after_fifo_read f =
    if leb f.fifolen (f.fifondx + 1)
    then record f { msr = 0xA0; fifondx = 0; calls = irq_set 6 0 f.calls }
    else record f { fifondx = f.fifondx + 1 }

pub floppy_inb : ℕ → Fdc → Outcome (ℕ × Fdc)
unfolding after_fifo_read
floppy_inb offset f =
    let port = offset + 0x3F0 in
    if port == 0x3F4
    then ok (f.msr, f)
    else if port == 0x3F2
    then ok (f.dor, f)
    else if port == 0x3F5
    then fetch fifo_size f.fifo f.fifondx >>= (λ r. ok (r, after_fifo_read f))
    else abort

-- In unsigned int, where `s - 1` may wrap.
unfoldable pub chs_to_lba : ℕ → ℕ → ℕ → ℕ
chs_to_lba c h s = (18 * 2 * c + h * 18 + s + 2 ^ 32 - 1) % 2 ^ 32

-- fifo[0 .. 6], the result of a read and of a read id.
abbrev pub result_bytes : Fdc → Cells
result_bytes f =
    update
      (update
        (update (update (update (update (update f.fifo 0 (f.st 0)) 1 (f.st 1)) 2 (f.st 2)) 3 f.cyl)
          4 f.head)
        5 f.sect)
      6 2

-- fread into the DMA buffer of 64 KB, from a stream that is NULL if the image was not opened.
load_sectors : ℕ → ℕ → Fdc → Outcome Fdc
load_sectors lba count f = elim f.image [
  | none ↦ fault
  | some image ↦
      let (buffer, image') =
        read_file (512 * count) f.dma_buffer (seek (lba * 512 % 2 ^ 32) image) in
      ok (record f { image = some image'; dma_buffer = buffer })
]

pub cmd_read_data : Fdc → Outcome Fdc
unfolding load_sectors
cmd_read_data f = do
  assert (leb (f.fifo 6) 128)
  let f1 = record f { cyl = f.fifo 2; head = f.fifo 3 }
  f2 ← load_sectors (chs_to_lba (f.fifo 2) (f.fifo 3) (f.fifo 4)) (f.fifo 6) f1
  mem ← dma_transfer_from_device 2 f2.dma_buffer f2.dma f2.mem
  ok (record f2 {
    mem = mem;
    msr = msr_rqm_dio;
    fifolen = 7;
    fifondx = 0;
    fifo = result_bytes f2;
    calls = irq_set 6 1 f2.calls;
  })

unfoldable pub cmd_recalibrate : Fdc → Fdc
cmd_recalibrate f = record f {
  cyl = 0;
  msr = msr_rqm;
  fifolen = 1;
  fifondx = 0;
  calls = irq_set 6 1 (irq_set 6 0 f.calls);
}

cmd_sense_interrupt : Fdc → Fdc
cmd_sense_interrupt f = record f {
  msr = msr_rqm_dio;
  fifolen = 2;
  fifondx = 0;
  fifo = update (update f.fifo 0 (f.st 0)) 1 f.cyl;
  calls = irq_set 6 0 f.calls;
}

cmd_read_id : Fdc → Fdc
cmd_read_id f = record f {
  msr = msr_rqm_dio;
  fifolen = 7;
  fifondx = 0;
  fifo = result_bytes f;
  calls = irq_set 6 1 f.calls;
}

cmd_seek : Fdc → Fdc
cmd_seek f = record f {
  head = f.fifo 1 / 2 ^ 2;
  cyl = f.fifo 2;
  fifolen = 0;
  fifondx = 0;
  msr = 0xA0;
  calls = irq_set 6 1 f.calls;
}

-- The switch has no default: any other first byte does nothing.
pub do_execute_command : Fdc → Outcome Fdc
unfolding cmd_recalibrate cmd_sense_interrupt cmd_read_id cmd_seek
do_execute_command f =
    let cmd = f.fifo 0 % 16 in
    if cmd == 0x6
    then cmd_read_data f
    else if cmd == 0x7
    then ok (cmd_recalibrate f)
    else if cmd == 0x8
    then ok (cmd_sense_interrupt f)
    else if cmd == 0xA
    then ok (cmd_read_id f)
    else if cmd == 0xF
    then ok (cmd_seek f)
    else ok f

-- The length of a command, from its first byte.
unfoldable pub command_length : ℕ → Outcome ℕ
command_length val =
    let cmd = val % 16 in
    if cmd == 0x6
    then ok 9
    else if cmd == 0x7
    then ok 2
    else if cmd == 0x8
    then ok 1
    else if cmd == 0xA
    then ok 2
    else if cmd == 0xF
    then ok 3
    else abort

begin_command : ℕ → Fdc → Outcome Fdc
unfolding command_length
begin_command val f =
    if f.fifondx == 0
    then command_length val >>= (λ n. ok (record f { fifolen = n; msr = bit_or f.msr 0x10 }))
    else ok f

write_fifo : ℕ → Fdc → Outcome Fdc
unfolding begin_command
write_fifo val f = do
  f1 ← begin_command val f
  fifo ← store fifo_size f1.fifo f1.fifondx val
  let f2 = record f1 { fifo = fifo; fifondx = f1.fifondx + 1 }
  if leb f2.fifolen f2.fifondx then do_execute_command f2 else ok f2

pub floppy_outb : ℕ → ℕ → Fdc → Outcome Fdc
unfolding do_reset write_fifo
floppy_outb offset val f =
    let port = offset + 0x3F0 in
    if port == 0x3F2
    then (let f' = if val / 2 ^ 2 % 2 == 0 then raise 1 (do_reset f) else f in
        ok (record f' { dor = bit_and val 0xFB }))
    else if port == 0x3F5
    then write_fifo val f
    else if port == 0x3F7
    then ok (record f { ccr = val; dsr = bit_or (bit_and f.dsr 0xFC) (val % 4) })
    else abort

-- The bss is zero; `image` is what fopen gave.
abbrev pub x86_floppy_init : Option File → Dma → LowMem → List IrqLevel → Cells → Fdc
unfolding do_reset
x86_floppy_init image dma mem calls buffer = do_reset (record {
  sra = 0;
  srb = 0;
  msr = 0;
  dor = 0;
  ccr = 0;
  dsr = 0;
  st = zeros;
  fifo = zeros;
  fifondx = 0;
  fifolen = 0;
  cyl = 0;
  head = 0;
  sect = 1;
  image = image;
  dma_buffer = buffer;
  dma = dma;
  mem = mem;
  calls = calls;
})
