-- ===== src/Vga.antt =====
-- devices/x86/vga/registers.c: the VGA's registers, at the ports 0x3C0 to 0x3DF. Two handlers share
-- the functions, with the bases 0x3C0 and 0x3D0.
pub mod Invariant
pub mod Palette
pub mod Indexed
pub mod Ram
pub mod Rom
pub mod Font
pub mod Viewer
use kvmulate.Prelude.{
  ℕ, ◌+◌, ◌-◌, ◌*◌, ◌/◌, ◌%◌, Bool, true, false, not, Outcome, ok, abort, assert, ◌>>=◌, ◌>>◌, ltb,
  leb, ◌==◌, if◌then◌else◌, Cells, zeros, update, fetch, store,
}
use kvmulate.Prelude.Int.{ℤ, pos, negsuc}

pub record Vga : Type 0 where
  pub misc_output_reg : ℕ
  pub seq_ndx : ℤ
  pub seq_reg : Cells
  pub attr_ndx : ℕ
  pub attr_reg : Cells
  pub gcont_ndx : ℤ
  pub gcont_reg : Cells
  pub crtc_ndx : ℕ
  pub crtc_reg : Cells
  pub pel_write_addr : ℕ
  pub pel_read_addr : ℕ
  pub pel : Cells
  -- The static `b` of vgareg_inb.
  pub retrace : Bool

misc_output_write : ℕ → Vga → Outcome Vga
misc_output_write val v = if val % 2 == 0 then abort else ok (record v { misc_output_reg = val })

-- Indices that the tests leave are constants within the array.
sequencer_read : Vga → Outcome ℕ
sequencer_read v = elim v.seq_ndx [
  | pos n ↦ if n == 2 then ok (v.seq_reg 2) else if n == 4 then ok (v.seq_reg 4) else abort
  | negsuc n ↦ if n == 0 then ok 0 else abort
]

put_seq : ℕ → ℕ → Vga → Vga
put_seq n val v = record v { seq_reg = update v.seq_reg n val }

sequencer_write : ℕ → Vga → Outcome Vga
unfolding put_seq
sequencer_write val v = elim v.seq_ndx [
  | pos n ↦
      if n == 4
      then ok (put_seq 4 val v)
      else if n == 0
      then ok v
      else if n == 1
      then ok (put_seq 1 val v)
      else if n == 2
      then ok (put_seq 2 (val % 16) v)
      else if n == 3
      then ok (put_seq 3 val v)
      else abort
  | negsuc n ↦ if n == 0 then ok v else abort
]

abbrev pub pel_size : ℕ
pel_size = 768

-- The address is a uint16.
palette_write : ℕ → Vga → Outcome Vga
palette_write val v = do
  pel ← store pel_size v.pel v.pel_write_addr val
  ok (record v { pel = pel; pel_write_addr = (v.pel_write_addr + 1) % 65536 })

palette_read : Vga → Outcome (ℕ × Vga)
palette_read v = do
  val ← fetch pel_size v.pel v.pel_read_addr
  ok (val, record v { pel_read_addr = (v.pel_read_addr + 1) % 65536 })

graphics_controller_write : ℕ → Vga → Outcome Vga
graphics_controller_write val v = elim v.gcont_ndx [
  | pos n ↦ store 9 v.gcont_reg n val >>= λ regs. ok (record v { gcont_reg = regs })
  | negsuc n ↦ if n == 0 then ok v else Outcome.fault
]

graphics_controller_read : Vga → Outcome ℕ
graphics_controller_read v = elim v.gcont_ndx [
  | pos n ↦ fetch 9 v.gcont_reg n
  | negsuc n ↦ if n == 0 then ok 0 else Outcome.fault
]

abbrev pub mode_select_read : ℕ
mode_select_read = 0

-- The index is a uint8, and so never -1.
crtc_read : Vga → Outcome ℕ
crtc_read v = fetch 25 v.crtc_reg v.crtc_ndx

crtc_write : ℕ → Vga → Outcome Vga
crtc_write val v = store 25 v.crtc_reg v.crtc_ndx val >>= λ regs. ok (record v { crtc_reg = regs })

attribute_read : Vga → Outcome ℕ
attribute_read v =
    if v.attr_ndx == 0x10
    then ok (v.attr_reg 0x10)
    else if v.attr_ndx == 0x14
    then ok (v.attr_reg 0x14)
    else if ltb 0x14 v.attr_ndx
    then ok 0
    else abort

-- An int as a uint8.
abbrev pub low_byte : ℤ → ℕ
low_byte (pos n) = n % 256
low_byte (negsuc n) = 255 - n % 256

abbrev keep : Vga → Outcome ℕ → Outcome (ℕ × Vga)
keep v m = m >>= λ val. ok (val, v)

abbrev toggle : Vga → Outcome (ℕ × Vga)
toggle v = ok (if v.retrace then 0 else 8, record v { retrace = not v.retrace })

pub vgareg_inb : ℕ → ℕ → Vga → Outcome (ℕ × Vga)
unfolding attribute_read sequencer_read palette_read crtc_read graphics_controller_read
vgareg_inb base offset v =
    let port = offset + base in
    if port == 0x3B4
    then ok (v.crtc_ndx, v)
    else if port == 0x3C0
    then ok (v.attr_ndx, v)
    else if port == 0x3C1
    then keep v (attribute_read v)
    else if port == 0x3C4
    then ok (low_byte v.seq_ndx, v)
    else if port == 0x3C5
    then keep v (sequencer_read v)
    else if port == 0x3C9
    then palette_read v
    else if port == 0x3CA
    then ok (0, v)
    else if port == 0x3CC
    then ok (v.misc_output_reg, v)
    else if port == 0x3CE
    then ok (low_byte v.gcont_ndx, v)
    else if port == 0x3D3
    then keep v (crtc_read v)
    else if port == 0x3D5
    then keep v (crtc_read v)
    else if port == 0x3D8
    then ok (mode_select_read, v)
    else if port == 0x3DA
    then toggle v
    else if port == 0x3CF
    then keep v (graphics_controller_read v)
    else abort

pub vgareg_outb : ℕ → ℕ → ℕ → Vga → Outcome Vga
unfolding misc_output_write sequencer_write palette_write graphics_controller_write crtc_write
vgareg_outb base offset val v =
    let port = offset + base in
    if port == 0x3C0
    then ok (record v { attr_ndx = val })
    else if port == 0x3C2
    then misc_output_write val v
    else if port == 0x3C4
    then ok (record v { seq_ndx = if leb val 4 then pos val else negsuc 0 })
    else if port == 0x3C5
    then sequencer_write val v
    else if port == 0x3C6
    then (assert (val == 0xFF) >> ok v)
    else if port == 0x3C7
    then ok (record v { pel_read_addr = val * 3 })
    else if port == 0x3C8
    then ok (record v { pel_write_addr = val * 3 })
    else if port == 0x3C9
    then palette_write val v
    else if port == 0x3CE
    then ok (record v { gcont_ndx = if leb val 8 then pos val else negsuc 0 })
    else if port == 0x3CF
    then graphics_controller_write val v
    else if port == 0x3D4
    then (assert (leb val 0x18) >> ok (record v { crtc_ndx = val }))
    else if port == 0x3D5
    then crtc_write val v
    else if port == 0x3D8
    then ok (record v { misc_output_reg = val })
    else abort

-- The low byte to the index register, then the high byte to the register behind it.
pub vgareg_outw : ℕ → ℕ → ℕ → Vga → Outcome Vga
vgareg_outw base offset val v =
    let port = offset + base in
    if port == 0x3C4
    then (vgareg_outb base offset (val % 256) v >>= vgareg_outb base (offset + 1) (val / 256))
    else if port == 0x3D4
    then (vgareg_outb base offset (val % 256) v >>= vgareg_outb base (offset + 1) (val / 256))
    else if port == 0x3CE
    then (vgareg_outb base offset (val % 256) v >>= vgareg_outb base (offset + 1) (val / 256))
    else abort

abbrev pub vgareg_inw : Vga → Outcome (ℕ × Vga)
vgareg_inw v = abort

abbrev pub vgareg_inl : Vga → Outcome (ℕ × Vga)
vgareg_inl v = abort

abbrev pub vgareg_outl : Vga → Outcome Vga
vgareg_outl v = abort

-- The context that x86_vga_init hands over is zero.
abbrev pub start : Vga
start = record {
  misc_output_reg = 0;
  seq_ndx = pos 0;
  seq_reg = zeros;
  attr_ndx = 0;
  attr_reg = zeros;
  gcont_ndx = pos 0;
  gcont_reg = zeros;
  crtc_ndx = 0;
  crtc_reg = zeros;
  pel_write_addr = 0;
  pel_read_addr = 0;
  pel = zeros;
  retrace = false;
}
