-- ===== src/Vga/Invariant.antt =====
-- devices/x86/vga/registers.c: the indices that a guest leaves behind stay inside the arrays.
use kvmulate.Prelude.{
  IfReturns, Safe-IfReturns, Bool-cases, ◌==◌, inl, inr, ℕ, ◌+◌, ◌%◌, ◌/◌, ◌≤◌, ◌≡◌, ◌≢◌, List,
  Outcome, ok, ◌>>=◌, arith, Safe, Safe->>=, run, run-Safe,
}
use kvmulate.Prelude.Int.{ℤ, pos, negsuc}
use kvmulate.Vga.{
  Vga, vgareg_inb, vgareg_outb, vgareg_outw, start, misc_output_write, sequencer_write, put_seq,
  graphics_controller_write, crtc_write, graphics_controller_read, crtc_read, sequencer_read,
  attribute_read, palette_read, palette_write,
}

-- -1, or at most `last`.
abbrev pub Index : ℕ → ℤ → Type 0
Index last (pos n) = n ≤ last
Index last (negsuc n) = n ≡ 0

pub record Inv (v : Vga) : Type 0 where
  seq : Index 4 v.seq_ndx
  gcont : Index 8 v.gcont_ndx
  crtc : v.crtc_ndx ≤ 24

-- An access of a guest to any register but the palette's data, with the handler's base.
pub data Access : Type 0 where
  in_byte : (base offset : ℕ) → offset + base ≢ 0x3C9 → Access
  out_byte : (base offset val : ℕ) → offset + base ≢ 0x3C9 → Access
  out_word : (base offset val : ℕ) → Access

abbrev state_of : Outcome (ℕ × Vga) → Outcome Vga
state_of m = m >>= λ q. ok q.1

sequencer_write-Inv : (val : ℕ) (v : Vga) → Inv v → Safe Inv (sequencer_write val v)
unfolding sequencer_write put_seq
sequencer_write-Inv val v i = ground arith

graphics_controller_write-Inv :
    (val : ℕ) (v : Vga) → Inv v → Safe Inv (graphics_controller_write val v)
unfolding graphics_controller_write
graphics_controller_write-Inv val v i = ground arith

crtc_write-Inv : (val : ℕ) (v : Vga) → Inv v → Safe Inv (crtc_write val v)
unfolding crtc_write
crtc_write-Inv val v i = ground arith

outb-Inv :
    (base offset val : ℕ) (v : Vga)
    → offset + base ≢ 0x3C9
    → Inv v
    → Safe Inv (vgareg_outb base offset val v)
unfolding vgareg_outb misc_output_write
outb-Inv base offset val v other i = ground (
  arith,
  sequencer_write-Inv val v i,
  graphics_controller_write-Inv val v i,
  crtc_write-Inv val v i,
)

inb-Inv :
    (base offset : ℕ) (v : Vga)
    → offset + base ≢ 0x3C9
    → Inv v
    → Safe Inv (state_of (vgareg_inb base offset v))
unfolding vgareg_inb graphics_controller_read crtc_read sequencer_read attribute_read
inb-Inv base offset v other i = ground arith

-- At the palette's data as well, if the access returns.
pub vgareg_inb-Inv :
    (base offset : ℕ) (v : Vga) → Inv v → IfReturns (λ q. Inv q.1) (vgareg_inb base offset v)
unfolding vgareg_inb graphics_controller_read crtc_read sequencer_read attribute_read palette_read
vgareg_inb-Inv base offset v i = ground arith

palette_write-Inv : (val : ℕ) (v : Vga) → Inv v → IfReturns Inv (palette_write val v)
unfolding palette_write
palette_write-Inv val v i = ground arith

pub vgareg_outb-Inv :
    (base offset val : ℕ) (v : Vga) → Inv v → IfReturns Inv (vgareg_outb base offset val v)
unfolding vgareg_outb
vgareg_outb-Inv base offset val v i = elim (Bool-cases (offset + base == 0x3C9)) [
  | inl palette ↦ ground (arith, palette, palette_write-Inv val v i)
  | inr miss ↦
      let other : offset + base ≢ 0x3C9 = λ e. ground (arith, miss, e) in
      Safe-IfReturns Inv (vgareg_outb base offset val v) (outb-Inv base offset val v other i)
]

pair-Inv :
    (base offset val : ℕ) (v : Vga)
    → Inv v
    → offset + base ≢ 0x3C9
    → offset + base ≢ 0x3C8
    → Safe Inv (vgareg_outb base offset (val % 256) v >>= vgareg_outb base (offset + 1) (val / 256))
pair-Inv base offset val v i first second =
    Safe->>= Inv Inv (vgareg_outb base offset (val % 256) v) _ (outb-Inv base offset _ v first i)
      (λ w k. outb-Inv base (offset + 1) _ w (λ e. second (omega arith)) k)

pub outw-Inv : (base offset val : ℕ) (v : Vga) → Inv v → Safe Inv (vgareg_outw base offset val v)
unfolding vgareg_outw
outw-Inv base offset val v i = ground (arith, pair-Inv base offset val v i)

pub step : Access → Vga → Outcome Vga
step (in_byte base offset _) v = state_of (vgareg_inb base offset v)
step (out_byte base offset val _) v = vgareg_outb base offset val v
step (out_word base offset val) v = vgareg_outw base offset val v

step-Inv : (a : Access) (v : Vga) → Inv v → Safe Inv (step a v)
unfolding step
step-Inv (in_byte base offset other) v i = inb-Inv base offset v other i
step-Inv (out_byte base offset val other) v i = outb-Inv base offset val v other i
step-Inv (out_word base offset val) v i = outw-Inv base offset val v i

pub start-Inv : Inv start
start-Inv = record { seq = omega arith; gcont = omega arith; crtc = omega arith }

-- From the context that the initialisation hands over, no sequence of accesses of a byte or a word to
-- the VGA's registers other than the palette's data reads or writes outside an array, and the
-- indices of the sequencer, the graphics controller and the CRT controller stay in their ranges.
pub run_vga-Inv : (accesses : List Access) → Safe Inv (run step accesses start)
run_vga-Inv accesses = run-Safe step Inv step-Inv accesses start start-Inv
