-- ===== src/Cmos.antt =====
-- devices/x86/cmos.c: the CMOS memory and real-time clock behind an index and a data port. A handler
-- is given the port's offset from 0x70. What localtime returns is an argument of a read.
pub mod Clock
pub mod Invariant
pub mod Memory
use kvmulate.Prelude.{
  ℕ, ◌+◌, ◌-◌, ◌*◌, ◌/◌, ◌%◌, ◌^◌, bit_and, bit_or, ◌&&◌, Outcome, ok, abort, ltb, leb, ◌==◌, ◌||◌,
  if◌then◌else◌,
}

-- struct tm, with the year counted from 1900.
pub record Tm : Type 0 where
  pub tm_sec : ℕ
  pub tm_min : ℕ
  pub tm_hour : ℕ
  pub tm_mday : ℕ
  pub tm_mon : ℕ
  pub tm_year : ℕ

pub record Cmos : Type 0 where
  pub indexreg : ℕ
  pub resetcode : ℕ
  pub divider : ℕ
  pub rate : ℕ
  pub status_b : ℕ
  pub status_c : ℕ
  pub status_d : ℕ
  -- pSystemCtx->ramsize
  pub ramsize : ℕ

-- DEC2BCD, as a uint8
pub dec2bcd : ℕ → ℕ
dec2bcd x = bit_or (x / 10 * 16) (x % 10) % 256

-- A set bit 2 of the status register B turns the conversion off.
pub bin2bcd : Cmos → ℕ → ℕ
unfolding dec2bcd
bin2bcd c val = if c.status_b / 2 ^ 2 % 2 == 0 then dec2bcd val else val

pub read_hour : Tm → Cmos → ℕ
unfolding bin2bcd
read_hour t c =
    let hour = t.tm_hour % 256 in
    if c.status_b / 2 % 2 == 0
    then (if ltb 12 hour then bit_or 0x80 (bin2bcd c (hour - 12)) else bin2bcd c hour)
    else bin2bcd c hour

-- The memory below the hole of the address space, less its first 16 MB, as a uint64.
pub extended_memory : Cmos → ℕ
extended_memory c =
    ((if ltb 0xE0000000 c.ramsize then 0xE0000000 else c.ramsize) + 2 ^ 64 - 2 ^ 24) % 2 ^ 64

-- The memory above 4 GB.
pub high_memory : Cmos → ℕ
high_memory c =
    if leb c.ramsize 0xE0000000 then 0 else (c.ramsize + 2 ^ 64 - 0xE0000000 - 0x100000) % 2 ^ 64

-- The registers of the clock and its status.
pub read_clock : Tm → ℕ → Cmos → Outcome (ℕ × Cmos)
unfolding bin2bcd read_hour
read_clock t i c =
    if i == 0x00
    then ok (bin2bcd c (t.tm_sec % 256), c)
    else if i == 0x01 || i == 0x03 || i == 0x05
    then ok (0xFF, c)
    else if i == 0x02
    then ok (bin2bcd c (t.tm_min % 256), c)
    else if i == 0x04
    then ok (read_hour t c, c)
    else if i == 0x07
    then ok (bin2bcd c (t.tm_mday % 256), c)
    else if i == 0x08
    then ok (bin2bcd c ((t.tm_mon + 1) % 256), c)
    else if i == 0x09
    then (let year = t.tm_year % 256 in
        ok (bin2bcd c (if leb 100 year then year - 100 else year), c))
    else if i == 0x0A
    then ok (bit_or 6 (2 ^ 5), record c { divider = 32768; rate = 1024 })
    else if i == 0x0B
    then ok (c.status_b, c)
    else if i == 0x0C
    then ok (c.status_c, c)
    else ok (c.status_d, c)

-- The other registers.
pub read_memory : Tm → ℕ → Cmos → Outcome (ℕ × Cmos)
unfolding bin2bcd extended_memory high_memory
read_memory t i c =
    if i == 0x0F
    then ok (c.resetcode, c)
    else if i == 0x10
    then ok (0x4 * 2 ^ 4, c)
    else if i == 0x12
    then ok (0xF0, c)
    else if i == 0x13
    then ok (0x00, c)
    else if i == 0x17 || i == 0x18
    then ok (0xFF, c)
    else if i == 0x32
    then ok (bin2bcd c (if leb 100 (t.tm_year % 256) then 1 else 0), c)
    else if i == 0x30
    then ok (extended_memory c / 2 ^ 10 % 256, c)
    else if i == 0x31
    then ok (extended_memory c / 2 ^ 18 % 256, c)
    else if i == 0x34
    then ok (extended_memory c / 2 ^ 16 % 256, c)
    else if i == 0x35
    then ok (extended_memory c / 2 ^ 24 % 256, c)
    else if i == 0x38 || i == 0x39
    then ok (1, c)
    else if i == 0x3D
    then ok (2, c)
    else if i == 0x5B
    then ok (high_memory c / 2 ^ 16 % 256, c)
    else if i == 0x5C
    then ok (high_memory c / 2 ^ 24 % 256, c)
    else if i == 0x5D
    then ok (high_memory c / 2 ^ 32 % 256, c)
    else if i == 0x5F
    then ok (0, c)
    else abort

-- The test for the index port compares the offset with 0x70.
pub cmos_inb : Tm → ℕ → Cmos → Outcome (ℕ × Cmos)
cmos_inb t port c =
    if port == 0x70
    then ok (c.indexreg, c)
    else if leb c.indexreg 0x05 || (leb 0x07 c.indexreg && leb c.indexreg 0x0D)
    then read_clock t c.indexreg c
    else read_memory t c.indexreg c

pub write_data : ℕ → Cmos → Outcome Cmos
write_data val c =
    let i = c.indexreg in
    if i == 0x0A
    then (if val % 16 == 6 && bit_and val 0x70 == 0x20
        then ok (record c { rate = 1024; divider = 32768 })
        else abort)
    else if i == 0x0B
    then ok (record c { status_c = val })
    else if i == 0x0F
    then ok (record c { resetcode = val })
    else if i == 0x00
        || i == 0x02
        || i == 0x04
        || i == 0x07
        || i == 0x08
        || i == 0x09
        || i == 0x17
        || i == 0x32
    then ok c
    else abort

pub cmos_outb : ℕ → ℕ → Cmos → Outcome Cmos
cmos_outb port val c =
    if port == 0x00 then ok (record c { indexreg = val % 128 }) else write_data val c

abbrev pub x86_cmos_init : ℕ → Cmos
x86_cmos_init ramsize = record {
  indexreg = 0;
  resetcode = 0;
  divider = 32768;
  rate = 1024;
  status_b = 0;
  status_c = 0;
  status_d = 0x80;
  ramsize = ramsize;
}
