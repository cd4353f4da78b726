-- ===== src/Irq.antt =====
-- irq.c: the interrupt lines of the in-kernel interrupt controller. The ioctl KVM_IRQ_LINE is the
-- kernel's; what the program does is the sequence of levels that it asks for, kept here newest
-- first. No caller looks at the result of irq_set.
use kvmulate.Prelude.{ℕ, List, ◌∷◌}

-- struct kvm_irq_level, as irq_set fills it in.
pub record IrqLevel : Type 0 where
  pub irq : ℕ
  pub level : ℕ

abbrev pub irq_set : ℕ → ℕ → List IrqLevel → List IrqLevel
irq_set irq level calls = record { irq = irq; level = level } ∷ calls
