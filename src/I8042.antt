-- ===== src/I8042.antt =====
-- devices/x86/i8042.c: the keyboard controller, at the ports 0x60 and 0x64, and the keyboard
-- behind it. A handler is given the port's offset from 0x60. The indices 0 and 1 of the arrays
-- are constants within their eight elements; every other access is checked.
pub mod Invariant
pub mod Protocol
use kvmulate.Prelude.{
  ℕ, suc, ◌+◌, ◌-◌, bit_and, bit_or, Bool, true, false, ◌&&◌, ◌||◌, List, Outcome, ok, abort, ltb,
  leb, ◌==◌, if◌then◌else◌, ◌>>=◌, Cells, zeros, update, fetch, store,
}
use kvmulate.Prelude.Int.{ℤ, pos, negsuc, is_neg, pred_ℤ}
use kvmulate.Irq.{IrqLevel, irq_set}

pub record Regs : Type 0 where
  pub status : ℕ
  pub command_byte : ℕ
  pub buf_output : Cells
  pub ndx_output : ℤ
  pub cmdparams : Cells
  pub cmdparams_left : ℕ
  pub cmdparams_cmd : ℕ
  pub kbdparams : Cells
  pub kbdparams_left : ℕ
  pub kbdparams_cmd : ℕ
  pub control : ℕ
  pub calls : List IrqLevel

-- buf_output[0] = v; ndx_output = 0; status |= (1<<0)
abbrev pub respond : ℕ → Regs → Regs
respond v r = record r {
  buf_output = update r.buf_output 0 v;
  ndx_output = pos 0;
  status = bit_or r.status 1;
}

-- buf_output[0] = 0xFA; ndx_output = 0; status = (1<<0)
abbrev pub ack : Regs → Regs
ack r = record r { buf_output = update r.buf_output 0 0xFA; ndx_output = pos 0; status = 1 }

pub kbd_inject : ℕ → Bool → Regs → Regs
kbd_inject sc pressed r =
    let r' = respond (if pressed then sc else bit_or sc 0x80) r in
    record r' { calls = irq_set 1 1 r.calls }

pub handle_command_withparams : ℕ → Cells → Regs → Outcome Regs
handle_command_withparams cmd params r =
    if cmd == 0x60
    then ok (record r { command_byte = params 0 })
    else if cmd == 0xD3 || cmd == 0xD4 || cmd == 0xD1
    then ok r
    else abort

abbrev pub expect_param : ℕ → Regs → Regs
expect_param cmd r = record r { cmdparams_left = 1; cmdparams_cmd = cmd }

-- The case 0x20 has no break, and goes on into the case 0x60.
pub handle_command : ℕ → Regs → Outcome Regs
handle_command cmd r =
    if cmd == 0x20
    then ok (expect_param cmd (respond r.command_byte r))
    else if cmd == 0x60
    then ok (expect_param cmd r)
    else if cmd == 0xA9
    then ok (respond 0x01 r)
    else if cmd == 0xAA
    then ok (respond 0x55 r)
    else if cmd == 0xAD || cmd == 0xAE
    then ok r
    else if cmd == 0xAB
    then ok (respond 0x00 r)
    else if cmd == 0xD1 || cmd == 0xD3 || cmd == 0xD4
    then ok (expect_param cmd r)
    else if cmd == 0xFF
    then ok r
    else abort

-- The assertion on pParams always holds: the caller passes an array.
pub handle_kbd_command_withparams : ℕ → Cells → Regs → Outcome Regs
handle_kbd_command_withparams cmd params r =
    if cmd == 0xED || cmd == 0xF0 then ok (ack r) else abort

abbrev pub expect_kbd_param : ℕ → Regs → Regs
expect_kbd_param cmd r = record r { kbdparams_left = 1; kbdparams_cmd = cmd }

pub handle_kbd_command : ℕ → Regs → Outcome Regs
handle_kbd_command cmd r =
    if cmd == 0x05
    then ok r
    else if cmd == 0xED
    then ok (expect_kbd_param cmd r)
    else if cmd == 0xF0
    then ok (ack (expect_kbd_param cmd r))
    else if cmd == 0xF2 || cmd == 0xF4 || cmd == 0xF5
    then ok (ack r)
    else if cmd == 0xFF
    then ok (record r {
      buf_output = update (update r.buf_output 0 0xAA) 1 0xFA;
      ndx_output = pos 1;
      status = 1;
    })
    else abort

-- ndx_output--, with the interrupt line lowered, and raised again if a byte is left.
abbrev pub after_read : Regs → Regs
after_read r =
    let left = pred_ℤ r.ndx_output in
    if is_neg left
    then record r { ndx_output = left; calls = irq_set 1 0 r.calls; status = bit_and r.status 0xFE }
    else record r { ndx_output = left; calls = irq_set 1 1 (irq_set 1 0 r.calls) }

pub read_data : Regs → Outcome (ℕ × Regs)
read_data r = elim r.ndx_output [
  | negsuc n ↦ ok (0x00, r)
  | pos n ↦ do v ← fetch 8 r.buf_output n; ok (v, after_read r)
]

pub kbd_inb : ℕ → Regs → Outcome (ℕ × Regs)
unfolding read_data
kbd_inb offset r =
    let port = offset + 0x60 in
    if port == 0x64 then ok (r.status, r) else if port == 0x60 then read_data r else abort

-- A byte that a command waits for: cmdparams[cmdparams_left - 1] = val; cmdparams_left--; ...
pub command_param : ℕ → Regs → Outcome Regs
unfolding handle_command_withparams
command_param val r = do
  params ← store 8 r.cmdparams (r.cmdparams_left - 1) val
  let r' = record r { cmdparams = params; cmdparams_left = r.cmdparams_left - 1 }
  if leb r'.cmdparams_left 0 then handle_command_withparams r.cmdparams_cmd params r' else ok r'

pub kbd_command_param : ℕ → Regs → Outcome Regs
unfolding handle_kbd_command_withparams
kbd_command_param val r = do
  params ← store 8 r.kbdparams (r.kbdparams_left - 1) val
  let r' = record r { kbdparams = params; kbdparams_left = r.kbdparams_left - 1 }
  if leb r'.kbdparams_left 0 then handle_kbd_command_withparams r.kbdparams_cmd params r' else ok r'

pub kbd_outb : ℕ → ℕ → Regs → Outcome Regs
unfolding handle_command command_param kbd_command_param handle_kbd_command
kbd_outb offset val r =
    let port = offset + 0x60 in
    if port == 0x64
    then handle_command val r
    else if port == 0x60 && ltb 0 r.cmdparams_left
    then command_param val r
    else if port == 0x60 && ltb 0 r.kbdparams_left
    then kbd_command_param val r
    else if port == 0x60
    then handle_kbd_command val r
    else abort

-- Word and long accesses only assert.
abbrev pub kbd_inw : ℕ → Regs → Outcome (ℕ × Regs)
kbd_inw offset r = abort

abbrev pub kbd_inl : ℕ → Regs → Outcome (ℕ × Regs)
kbd_inl offset r = abort

abbrev pub kbd_outw : ℕ → ℕ → Regs → Outcome Regs
kbd_outw offset val r = abort

abbrev pub kbd_outl : ℕ → ℕ → Regs → Outcome Regs
kbd_outl offset val r = abort

pub kbd_timer2_set : Bool → Regs → Regs
kbd_timer2_set state r = record r { control = bit_or r.control (if state then 32 else 0) }

-- The memset comes after the assignment of the status, so the status is 0 and not 0x14.
unfoldable pub x86_keyboard_init : Regs → Regs
x86_keyboard_init r = record {
  status = 0;
  command_byte = 0;
  buf_output = zeros;
  ndx_output = pos 0;
  cmdparams = zeros;
  cmdparams_left = 0;
  cmdparams_cmd = 0;
  kbdparams = zeros;
  kbdparams_left = 0;
  kbdparams_cmd = 0;
  control = 0;
  calls = r.calls;
}
