-- ===== src/Floppy/Fifo.antt =====
-- devices/x86/floppy.c: the fifo that commands and results share, and when it overflows.
use kvmulate.Prelude.{
  ℕ, ◌+◌, ◌<◌, ◌≤◌, ◌≡◌, refl, List, [], ◌∷◌, Outcome, ok, abort, fault, ◌>>=◌, arith, Returns,
  length, Bool-cases, ltb, inl, inr,
}
use kvmulate.Floppy.Commands.{write_bytes}
use kvmulate.Floppy.{Fdc, floppy_outb, floppy_inb, do_execute_command}

-- The first byte of the fifo is no command, and the guest is within it.
pub record Stray (f : Fdc) : Type 0 where
  pub no_command : f.fifo 0 ≡ 0
  pub started : 0 < f.fifondx

floppy_outb-Stray :
    (b : ℕ) (f : Fdc)
    → Stray f
    → f.fifondx < 522
    → Returns (λ f'. Stray f' × (f'.fifondx ≡ f.fifondx + 1)) (floppy_outb 5 b f)
unfolding floppy_outb do_execute_command
floppy_outb-Stray b f s room = ground arith

full_fifo : (b : ℕ) (f : Fdc) → Stray f → 522 ≤ f.fifondx → floppy_outb 5 b f ≡ fault
unfolding floppy_outb
full_fifo b f s full = ground arith

fault-bind {ℓ} :
    {A B : Type ℓ} (m : Outcome A) (k : A → Outcome B) (P : A → Type 0)
    → Returns P m
    → ((a : A) → P a → k a ≡ fault)
    → (m >>= k) ≡ fault
fault-bind (ok a) k P h g = g a h
fault-bind abort k P h g = absurd h
fault-bind fault k P h g = refl

sense_partly :
    (f : Fdc)
    → f.fifondx ≡ 0
    → f.st 0 ≡ 0
    → Returns (λ p. Stray p.1 × (p.1.fifondx ≡ 1)) (floppy_outb 5 0x08 f >>= floppy_inb 5)
unfolding floppy_outb floppy_inb do_execute_command
sense_partly f idle no_error = ground arith

write_bytes_overflow :
    (bs : List ℕ) (f : Fdc)
    → Stray f
    → f.fifondx ≤ 522
    → 522 < f.fifondx + length bs
    → write_bytes bs f ≡ fault
unfolding write_bytes
write_bytes_overflow [] f s in_fifo many = absurd (omega arith)
write_bytes_overflow (b ∷ bs) f s in_fifo many = elim (Bool-cases (ltb f.fifondx 522)) [
  | inl room ↦
      fault-bind (floppy_outb 5 b f) (write_bytes bs) _ (floppy_outb-Stray b f s (ground arith))
        λ f' h. write_bytes_overflow bs f' h.0 (ground arith) (ground arith)
  | inr full ↦ rw (full_fifo b f s (ground arith))
]

-- The fifo overflows if a guest leaves a result unread: after SENSE INTERRUPT on an idle
-- controller, a read of the first of its two bytes and then any 522 bytes or more written to the
-- data port, a byte is stored behind the end of the fifo.
pub fifo_overflow :
    (f : Fdc) (bs : List ℕ)
    → f.fifondx ≡ 0
    → f.st 0 ≡ 0
    → 522 ≤ length bs
    → (floppy_outb 5 0x08 f >>= floppy_inb 5 >>= λ p. write_bytes bs p.1) ≡ fault
fifo_overflow f bs idle no_error many =
    fault-bind (floppy_outb 5 0x08 f >>= floppy_inb 5) _ _ (sense_partly f idle no_error)
      λ p h. write_bytes_overflow bs p.1 h.0 (omega arith) (omega arith)
