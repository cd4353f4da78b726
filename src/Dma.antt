-- ===== src/Dma.antt =====
-- devices/x86/i8237-dma.c: the two 8237 controllers and the page registers. regs[r][b] is kept at
-- index 2 * r + b of 14 bytes; a flip-flop is a count of accesses of which the last bit is used.
pub mod Program
use kvmulate.Prelude.{
  ℕ, ◌+◌, ◌-◌, ◌*◌, ◌/◌, ◌%◌, ◌^◌, bit_or, Bool, true, false, Outcome, ok, abort, fault, assert,
  ◌>>=◌, ◌>>◌, ltb, leb, ◌==◌, if◌then◌else◌, Cells, zeros, update, fetch, store,
}
use kvmulate.LowMem.{LowMem, sys_get_low_mem, copy_to_mem}

pub record Channels : Type 0 where
  pub regs : Cells
  pub flipflop : Cells
  pub mode : ℕ
  pub mask : ℕ

pub record Dma : Type 0 where
  pub ctl0 : Channels
  pub ctl1 : Channels
  pub page : Cells

-- Which of dma.ctl[2] a handler serves: the first if its base is 0.
pub data Chip : Type 0 where
  first second : Chip

abbrev pub ctl : Chip → Dma → Channels
ctl first d = d.ctl0
ctl second d = d.ctl1

abbrev pub set_ctl : Chip → Channels → Dma → Dma
set_ctl first c d = record d { ctl0 = c }
set_ctl second c d = record d { ctl1 = c }

-- The second chip's registers stand at even addresses.
abbrev pub register_of : Chip → ℕ → ℕ
register_of first port = port
register_of second port = port / 2

-- regs[port][ flipflop[port]++ & 1 ]: both arrays have seven rows.
read_register : ℕ → Channels → Outcome (ℕ × Channels)
read_register port c = do
  count ← fetch 7 c.flipflop port
  v ← fetch 14 c.regs (2 * port + count % 2)
  ok (v, record c { flipflop = update c.flipflop port (count + 1) })

pub write_cell : ℕ → ℕ → ℕ → ℕ → Channels → Outcome Channels
write_cell port count bit val c = do
  regs ← store 14 c.regs (2 * port + bit) val
  ok (record c { flipflop = update c.flipflop port (count + 1); regs = regs })

pub write_register : ℕ → ℕ → Channels → Outcome Channels
unfolding write_cell
write_register port val c = do
  count ← fetch 7 c.flipflop port
  write_cell port count (count % 2) val c

abbrev pub i8237_inb : Chip → ℕ → Dma → Outcome (ℕ × Dma)
unfolding read_register
i8237_inb chip offset d =
    let port = register_of chip offset in
    if leb port 0x7
    then read_register port (ctl chip d) >>= (λ p. ok (p.0, set_ctl chip p.1 d))
    else if port == 0x8
    then ok (4, d)
    else if port == 0x10
    then ok (0, d)
    else abort

abbrev pub cleared : Channels
cleared = record { regs = zeros; flipflop = zeros; mode = 0; mask = 0 }

-- memset(flipflop,0,7) clears seven bytes: the first count, and the low three bytes of the second.
abbrev pub clear_flipflops : Cells → Cells
clear_flipflops f = update (update f 0 0) 1 (f 1 / 2 ^ 24 * 2 ^ 24)

pub i8237_outb : Chip → ℕ → ℕ → Dma → Outcome Dma
i8237_outb chip offset val d =
    let port = register_of chip offset in
    let c = ctl chip d in
    if leb port 7
    then write_register port val c >>= (λ c'. ok (set_ctl chip c' d))
    else if port == 0xD
    then ok (set_ctl chip cleared d)
    else if port == 0xB
    then ok (set_ctl chip (record c { mode = val }) d)
    else if port == 0xA
    then ok (set_ctl chip (record c { mask = bit_or 0xF0 (val % 16) }) d)
    else if port == 0xC
    then if ltb 0 val
      then if val == 0xFF
        then ok (set_ctl chip (record c { flipflop = clear_flipflops c.flipflop }) d)
        else abort
      else ok d
    else abort

-- The page registers are 15 bytes, for 16 ports.
pub i8237_page_outb : ℕ → ℕ → Dma → Outcome Dma
i8237_page_outb port val d = store 0xF d.page port val >>= (λ page. ok (record d { page = page }))

abbrev pub i8237_page_inb : ℕ → Dma → Outcome (ℕ × Dma)
i8237_page_inb port d = abort

-- The address of channel 2, of 24 bits, and its count.
pub dest_offset : Dma → ℕ
dest_offset d = bit_or (bit_or (d.page 1 * 2 ^ 16) (d.ctl0.regs 9 * 2 ^ 8)) (d.ctl0.regs 8)

pub transfer_count : Dma → ℕ
transfer_count d = bit_or (d.ctl0.regs 11 * 2 ^ 8) (d.ctl0.regs 10)

-- The device's data go to memory, `count + 1` bytes of them whatever their length. They stand in a
-- buffer of 64 KB, which no count exceeds.
pub dma_transfer_from_device : ℕ → Cells → Dma → LowMem → Outcome LowMem
unfolding dest_offset transfer_count
dma_transfer_from_device ch source d m = do
  assert (ch == 2)
  dest ← sys_get_low_mem (dest_offset d)
  copy_to_mem dest source (transfer_count d + 1) m
