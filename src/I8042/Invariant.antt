-- ===== src/I8042/Invariant.antt =====
-- devices/x86/i8042.c: every order of port accesses, key events and timer changes stays inside the
-- arrays, and the output-full flag is never set over an empty output buffer.
use kvmulate.Prelude.{
  ℕ, suc, ◌%◌, ◌≤◌, ◌<◌, ◌≡◌, Bool, List, Outcome, ok, arith, ◌>>=◌, Safe, run, run-Safe,
}
use kvmulate.Prelude.Int.{ℤ, pos, negsuc}
use kvmulate.Prelude.Bytes.{set_bit0, clear_bit0}
use kvmulate.I8042.{
  Regs, respond, kbd_inject, handle_command, handle_command_withparams, handle_kbd_command,
  handle_kbd_command_withparams, command_param, kbd_command_param, read_data, kbd_inb, kbd_outb,
  kbd_timer2_set, x86_keyboard_init, after_read,
}

-- The bytes that wait in the output buffer.
abbrev pub pending : ℤ → ℕ
pending (pos n) = suc n
pending (negsuc n) = 0

pub record Inv (r : Regs) : Type 0 where
  pub byte : r.status < 256
  pub room : pending r.ndx_output ≤ 2
  pub full : r.status % 2 ≡ 1 → 0 < pending r.ndx_output
  pub one_param : r.cmdparams_left ≤ 1
  pub one_kbdparam : r.kbdparams_left ≤ 1

-- What the guest, the viewer and the timer do to the controller.
pub data Event : Type 0 where
  reads : ℕ → Event
  writes : ℕ → ℕ → Event
  key : ℕ → Bool → Event
  timer2 : Bool → Event

-- The state after an access whose value is thrown away.
abbrev pub state_of : Outcome (ℕ × Regs) → Outcome Regs
state_of m = m >>= λ p. ok p.1

pub step : Event → Regs → Outcome Regs
step (reads offset) r = state_of (kbd_inb offset r)
step (writes offset val) r = kbd_outb offset val r
step (key sc pressed) r = ok (kbd_inject sc pressed r)
step (timer2 b) r = ok (kbd_timer2_set b r)

respond-Inv : (v : ℕ) (r : Regs) → Inv r → Inv (respond v r)
respond-Inv v r h = ground (arith, set_bit0 r.status h.byte)

after_read-Inv : (r : Regs) → Inv r → Inv (after_read r)
after_read-Inv r h = ground (arith, clear_bit0 r.status h.byte)

read_data-Inv : (r : Regs) → Inv r → Safe (λ p. Inv p.1) (read_data r)
unfolding read_data
read_data-Inv r h = ground (arith, after_read-Inv r h)

pub kbd_inb-Inv : (offset : ℕ) (r : Regs) → Inv r → Safe (λ p. Inv p.1) (kbd_inb offset r)
unfolding kbd_inb
kbd_inb-Inv offset r h = ground (arith, read_data-Inv r h)

handle_command-Inv : (cmd : ℕ) (r : Regs) → Inv r → Safe Inv (handle_command cmd r)
unfolding handle_command
handle_command-Inv cmd r h = ground (arith, set_bit0 r.status h.byte)

command_param-Inv : (val : ℕ) (r : Regs) → Inv r → Safe Inv (command_param val r)
unfolding command_param handle_command_withparams
command_param-Inv val r h = ground arith

kbd_command_param-Inv : (val : ℕ) (r : Regs) → Inv r → Safe Inv (kbd_command_param val r)
unfolding kbd_command_param handle_kbd_command_withparams
kbd_command_param-Inv val r h = ground arith

handle_kbd_command-Inv : (cmd : ℕ) (r : Regs) → Inv r → Safe Inv (handle_kbd_command cmd r)
unfolding handle_kbd_command
handle_kbd_command-Inv cmd r h = ground arith

pub kbd_outb-Inv : (offset val : ℕ) (r : Regs) → Inv r → Safe Inv (kbd_outb offset val r)
unfolding kbd_outb
kbd_outb-Inv offset val r h = ground (
  arith,
  handle_command-Inv val r h,
  command_param-Inv val r h,
  kbd_command_param-Inv val r h,
  handle_kbd_command-Inv val r h,
)

pub kbd_inject-Inv : (sc : ℕ) (b : Bool) (r : Regs) → Inv r → Inv (kbd_inject sc b r)
unfolding kbd_inject
kbd_inject-Inv sc b r h = ground (arith, set_bit0 r.status h.byte)

-- Each access, key event and timer change, from a state that satisfies the invariant, stays inside
-- the arrays and keeps the invariant, or ends in an assertion: at most two bytes wait for the
-- guest, one at least does while the output-full flag is set, and no command waits for more than
-- one parameter.
pub step-Inv : (e : Event) (r : Regs) → Inv r → Safe Inv (step e r)
unfolding step kbd_timer2_set
step-Inv (reads offset) r h = ground (arith, kbd_inb-Inv offset r h)
step-Inv (writes offset val) r h = kbd_outb-Inv offset val r h
step-Inv (key sc pressed) r h = kbd_inject-Inv sc pressed r h
step-Inv (timer2 b) r h = ground arith

pub x86_keyboard_init-Inv : (r : Regs) → Inv (x86_keyboard_init r)
unfolding x86_keyboard_init
x86_keyboard_init-Inv r = omega arith

-- After the initialisation no sequence of port accesses, key events and timer changes reads or
-- writes outside an array, and the invariant holds after each that does not end in an assertion.
pub run-init-Inv : (es : List Event) (r : Regs) → Safe Inv (run step es (x86_keyboard_init r))
run-init-Inv es r = run-Safe step Inv step-Inv es (x86_keyboard_init r) (x86_keyboard_init-Inv r)
