-- ===== src/I8042/Protocol.antt =====
-- devices/x86/i8042.c: what the guest sees of key events and of the commands.
use kvmulate.Prelude.{
  ℕ, List, ◌+◌, ◌-◌, ◌%◌, ◌<◌, ◌≡◌, Bool, ok, abort, arith, ◌>>=◌, bit_or, if◌then◌else◌, Returns,
}
use kvmulate.Prelude.Int.{negsuc}
use kvmulate.Prelude.Bytes.{set_bit0, clear_bit0, set_bit7}
use kvmulate.Irq.{IrqLevel, irq_set}
use kvmulate.I8042.{
  Regs, kbd_inject, handle_command, handle_command_withparams, handle_kbd_command, command_param,
  read_data, kbd_inb, kbd_outb,
}

-- A key event with a scan code below 128 raises line 1 and sets the output-full flag. The next
-- read of the data port gives the scan code, with the top bit set for a release, lowers line 1,
-- clears the flag and leaves the rest of the status.
pub kbd_inb-kbd_inject :
    (sc : ℕ) (pressed : Bool) (r : Regs)
    → sc < 128
    → r.status < 256
    → let r' = kbd_inject sc pressed r in
      (r'.status ≡ r.status + 1 - r.status % 2)
      × (r'.calls ≡ irq_set 1 1 r.calls)
      × Returns
          (λ p.
            (p.0 ≡ (if pressed then sc else sc + 128))
            × (p.1.status ≡ r.status - r.status % 2)
            × (p.1.ndx_output ≡ negsuc 0)
            × (p.1.calls ≡ irq_set 1 0 (irq_set 1 1 r.calls)))
          (kbd_inb 0 r')
unfolding kbd_inject kbd_inb read_data
kbd_inb-kbd_inject sc pressed r small byte = ground (
  arith,
  set_bit0 r.status byte,
  clear_bit0 (bit_or r.status 1) (omega (arith, set_bit0 r.status byte)),
  set_bit7 sc (omega arith),
)

-- A reset of the keyboard, sent while no command waits for a parameter: two reads of the data
-- port give the acknowledgement 0xFA and then 0xAA. The output-full flag is set until the second
-- read, and line 1 is raised for the second byte and low at the end.
pub keyboard_reset :
    (r : Regs)
    → r.cmdparams_left ≡ 0
    → r.kbdparams_left ≡ 0
    → Returns
        (λ p.
          (p.0 ≡ 0xFA)
          × (p.1.status ≡ 1)
          × (p.1.calls ≡ irq_set 1 1 (irq_set 1 0 r.calls))
          × Returns
              (λ q.
                (q.0 ≡ 0xAA)
                × (q.1.status ≡ 0)
                × (q.1.ndx_output ≡ negsuc 0)
                × (q.1.calls ≡ irq_set 1 0 p.1.calls))
              (kbd_inb 0 p.1))
        (kbd_outb 0 0xFF r >>= kbd_inb 0)
unfolding kbd_outb handle_kbd_command kbd_inb read_data
keyboard_reset r c k = ground arith

-- The command byte that the guest writes (command 0x60, then a byte on the data port) is the one
-- that it reads back (command 0x20, then a read of the data port), and line 1 ends up low.
pub command_byte_round_trip :
    (v : ℕ) (r : Regs)
    → v < 256
    → r.status < 256
    → Returns
        (λ p. (p.0 ≡ v) × (p.1.command_byte ≡ v) × (p.1.calls ≡ irq_set 1 0 r.calls))
        (kbd_outb 4 0x60 r >>= kbd_outb 0 v >>= kbd_outb 4 0x20 >>= kbd_inb 0)
unfolding kbd_outb handle_command command_param handle_command_withparams kbd_inb read_data
command_byte_round_trip v r small byte = ground arith

-- The command 0x20 falls through into the case that waits for a parameter. So after it any byte
-- that the guest sends to the keyboard, whether or not it reads the command byte first, ends in
-- an assertion.
pub read_command_byte_aborts :
    (v : ℕ) (r : Regs)
    → (kbd_outb 4 0x20 r >>= kbd_outb 0 v ≡ abort)
      × ((kbd_outb 4 0x20 r >>= kbd_inb 0 >>= λ p. kbd_outb 0 v p.1) ≡ abort)
unfolding kbd_outb handle_command command_param handle_command_withparams kbd_inb read_data
read_command_byte_aborts v r = ground arith

-- Reading the data port of an empty buffer gives 0 and changes nothing, whatever the status says.
pub read_empty : (n : ℕ) (r : Regs) → r.ndx_output ≡ negsuc n → kbd_inb 0 r ≡ ok (0, r)
unfolding kbd_inb read_data
read_empty n r e = ground arith

-- The calls of irq_set do not matter to what is read.
pub read_apart :
    (r : Regs) (calls : List IrqLevel)
    → (kbd_inb 0 (record r { calls = calls }) >>= λ p. ok p.0) ≡ (kbd_inb 0 r >>= λ p. ok p.0)
unfolding kbd_inb read_data
read_apart r calls = ground arith
