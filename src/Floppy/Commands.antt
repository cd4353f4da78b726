-- ===== src/Floppy/Commands.antt =====
-- devices/x86/floppy.c: a command with its parameters through the data port, and its result.
use kvmulate.Prelude.{
  ℕ, suc, ◌+◌, ◌/◌, ◌<◌, ◌≤◌, ◌≡◌, refl, ◌∙◌, ap, >>=_ok, List, [], ◌∷◌, Outcome, ok, ◌>>=◌, arith,
  Returns, length, update, Cells, bit_or,
}
use kvmulate.Irq.{irq_set}
use kvmulate.Floppy.{Fdc, floppy_outb, floppy_inb, do_execute_command, command_length}

-- The guest's writes to the data port.
unfoldable pub write_bytes : List ℕ → Fdc → Outcome Fdc
write_bytes [] f = ok f
write_bytes (b ∷ bs) f = floppy_outb 5 b f >>= write_bytes bs

unfoldable pub put_bytes : Cells → ℕ → List ℕ → Cells
put_bytes a i [] = a
put_bytes a i (b ∷ bs) = put_bytes (update a i b) (i + 1) bs

param_more :
    (b : ℕ) (f : Fdc)
    → 0 < f.fifondx
    → f.fifondx + 1 < f.fifolen
    → f.fifolen ≤ 522
    → floppy_outb 5 b f
      ≡ ok (record f { fifo = update f.fifo f.fifondx b; fifondx = f.fifondx + 1 })
unfolding floppy_outb
param_more b f h k l = ground arith

param_last :
    (b : ℕ) (f : Fdc)
    → 0 < f.fifondx
    → f.fifondx + 1 ≡ f.fifolen
    → f.fifolen ≤ 522
    → floppy_outb 5 b f
      ≡ do_execute_command (record f { fifo = update f.fifo f.fifondx b; fifondx = f.fifondx + 1 })
unfolding floppy_outb
param_last b f h k l = ground arith

params :
    (b : ℕ) (bs : List ℕ) (f : Fdc)
    → 0 < f.fifondx
    → f.fifondx + length (b ∷ bs) ≡ f.fifolen
    → f.fifolen ≤ 522
    → write_bytes (b ∷ bs) f
      ≡ do_execute_command
          (record f { fifo = put_bytes f.fifo f.fifondx (b ∷ bs); fifondx = f.fifolen })
unfolding write_bytes put_bytes
params b [] f h k l =
    ap (λ m. m >>= write_bytes []) (param_last b f h k l)
    ∙ >>=_ok _
    ∙ ap
        (λ (n : ℕ). do_execute_command (record f { fifo = update f.fifo f.fifondx b; fifondx = n }))
        k
params b (c ∷ bs) f h k l =
    let f' : Fdc = record f { fifo = update f.fifo f.fifondx b; fifondx = f.fifondx + 1 } in
    ap (λ m. m >>= write_bytes (c ∷ bs)) (param_more b f h (omega arith) l)
    ∙ params c bs f' (omega arith) (omega arith) l

-- An idle controller, and the first byte of a command that takes parameters.
command_first :
    (b n : ℕ) (f : Fdc)
    → f.fifondx ≡ 0
    → command_length b ≡ ok (suc (suc n))
    → floppy_outb 5 b f
      ≡ ok (record f {
        fifo = update f.fifo 0 b;
        fifondx = 1;
        fifolen = suc (suc n);
        msr = bit_or f.msr 0x10;
      })
unfolding floppy_outb
command_first b n f idle long = ground arith

command_length_bound : (b n : ℕ) → command_length b ≡ ok n → n ≤ 522
unfolding command_length
command_length_bound b n h = ground arith

-- An idle controller collects a command with parameters in its fifo, and executes it when as many
-- bytes as its first one asks for have come, not earlier.
pub write_bytes-do_execute_command :
    (b c : ℕ) (bs : List ℕ) (f : Fdc)
    → f.fifondx ≡ 0
    → command_length b ≡ ok (length (b ∷ c ∷ bs))
    → write_bytes (b ∷ c ∷ bs) f
      ≡ do_execute_command (record f {
        fifo = put_bytes f.fifo 0 (b ∷ c ∷ bs);
        fifondx = length (b ∷ c ∷ bs);
        fifolen = length (b ∷ c ∷ bs);
        msr = bit_or f.msr 0x10;
      })
unfolding write_bytes put_bytes
write_bytes-do_execute_command b c bs f idle long =
    let f1 : Fdc = record f {
      fifo = update f.fifo 0 b;
      fifondx = 1;
      fifolen = length (b ∷ c ∷ bs);
      msr = bit_or f.msr 0x10;
    } in
    ap (λ m. m >>= write_bytes (c ∷ bs)) (command_first b (length bs) f idle long)
    ∙ params c bs f1 (omega arith) (omega arith) (command_length_bound b _ long)

-- SEEK on an idle controller with no error bits, and then SENSE INTERRUPT: the drive is at the
-- cylinder that the seek named, which the second result byte reports after the status 0, the
-- head is the one that its first parameter holds above two bits, and the controller is idle again
-- with the interrupt line low.
pub seek_sense :
    (head_byte cylinder : ℕ) (f : Fdc)
    → f.fifondx ≡ 0
    → f.st 0 ≡ 0
    → Returns
        (λ f1.
          (f1.fifondx ≡ 0)
          × (f1.calls ≡ irq_set 6 1 f.calls)
          × Returns
              (λ p.
                (p.0 ≡ 0)
                × Returns
                    (λ q.
                      (q.0 ≡ cylinder)
                      × (q.1.cyl ≡ cylinder)
                      × (q.1.head ≡ head_byte / 4)
                      × (q.1.fifondx ≡ 0)
                      × (q.1.msr ≡ 0xA0)
                      × (q.1.calls ≡ irq_set 6 0 (irq_set 6 0 f1.calls)))
                    (floppy_inb 5 p.1))
              (floppy_outb 5 0x08 f1 >>= floppy_inb 5))
        (write_bytes (0x0F ∷ head_byte ∷ cylinder ∷ []) f)
unfolding floppy_outb floppy_inb do_execute_command put_bytes
seek_sense head_byte cylinder f idle no_error =
    rw (write_bytes-do_execute_command 0x0F head_byte (cylinder ∷ []) f idle refl) (ground arith)
