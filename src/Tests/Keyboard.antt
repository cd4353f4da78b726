-- ===== src/Tests/Keyboard.antt =====
-- devices/x86/i8042.c: a key, a reset and a command on a controller that was just initialised.
use kvmulate.Prelude.{
  ◌≡◌, refl, List, [], ◌∷◌, arith, ◌>>=◌, true, false, Returns, Safe, run, zeros,
}
use kvmulate.Prelude.Int.{pos, negsuc}
use kvmulate.Irq.{irq_set}
use kvmulate.I8042.{Regs, kbd_inject, kbd_inb, kbd_outb, x86_keyboard_init}
use kvmulate.I8042.Invariant.{Inv, Event, step, run-init-Inv}
use kvmulate.I8042.Protocol.{kbd_inb-kbd_inject, keyboard_reset, command_byte_round_trip}

abbrev start : Regs
start = record {
  status = 0;
  command_byte = 0;
  buf_output = zeros;
  ndx_output = pos 0;
  cmdparams = zeros;
  cmdparams_left = 0;
  cmdparams_cmd = 0;
  kbdparams = zeros;
  kbdparams_left = 0;
  kbdparams_cmd = 0;
  control = 0;
  calls = [];
}

abbrev events : List Event
events = Event.key 0x1E true ∷ Event.reads 0 ∷ Event.writes 4 0x60 ∷ Event.writes 0 0x45 ∷ []

run-init-Inv_example : Safe Inv (run step events (x86_keyboard_init start))
run-init-Inv_example = run-init-Inv events start

kbd_inb-kbd_inject_example :
    let r' = kbd_inject 0x1E false start in
    (r'.status ≡ 1)
    × (r'.calls ≡ irq_set 1 1 [])
    × Returns
        (λ p.
          (p.0 ≡ 0x9E)
          × (p.1.status ≡ 0)
          × (p.1.ndx_output ≡ negsuc 0)
          × (p.1.calls ≡ irq_set 1 0 (irq_set 1 1 [])))
        (kbd_inb 0 r')
kbd_inb-kbd_inject_example = kbd_inb-kbd_inject 0x1E false start (omega arith) (omega arith)

keyboard_reset_example :
    Returns
      (λ p.
        (p.0 ≡ 0xFA)
        × (p.1.status ≡ 1)
        × (p.1.calls ≡ irq_set 1 1 (irq_set 1 0 []))
        × Returns
            (λ q.
              (q.0 ≡ 0xAA)
              × (q.1.status ≡ 0)
              × (q.1.ndx_output ≡ negsuc 0)
              × (q.1.calls ≡ irq_set 1 0 p.1.calls))
            (kbd_inb 0 p.1))
      (kbd_outb 0 0xFF start >>= kbd_inb 0)
keyboard_reset_example = keyboard_reset start refl refl

command_byte_round_trip_example :
    Returns
      (λ p. (p.0 ≡ 0x45) × (p.1.command_byte ≡ 0x45) × (p.1.calls ≡ irq_set 1 0 []))
      (kbd_outb 4 0x60 start >>= kbd_outb 0 0x45 >>= kbd_outb 4 0x20 >>= kbd_inb 0)
command_byte_round_trip_example = command_byte_round_trip 0x45 start (omega arith) (omega arith)
