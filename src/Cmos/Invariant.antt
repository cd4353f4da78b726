-- ===== src/Cmos/Invariant.antt =====
-- devices/x86/cmos.c: what no access changes.
use kvmulate.Prelude.{
  ℕ, ◌<◌, ◌≡◌, refl, List, Outcome, ok, ◌>>=◌, arith, Safe, Safe->>=, run, run-Safe,
}
use kvmulate.Cmos.{
  Tm, Cmos, cmos_inb, cmos_outb, read_clock, read_memory, write_data, x86_cmos_init,
}

pub record Inv (ramsize : ℕ) (c : Cmos) : Type 0 where
  index : c.indexreg < 128
  divider : c.divider ≡ 32768
  rate : c.rate ≡ 1024
  status_b : c.status_b ≡ 0
  status_d : c.status_d ≡ 0x80
  memory : c.ramsize ≡ ramsize

-- An access of a guest at an offset from port 0x70, with the time of a read.
pub data Access : Type 0 where
  in_byte : Tm → ℕ → Access
  out_byte : ℕ → ℕ → Access

pub step : Access → Cmos → Outcome Cmos
step (in_byte t port) c = cmos_inb t port c >>= λ q. ok q.1
step (out_byte port val) c = cmos_outb port val c

read_clock-Inv :
    (ramsize i : ℕ) (t : Tm) (c : Cmos)
    → Inv ramsize c
    → Safe (λ q. Inv ramsize q.1) (read_clock t i c)
unfolding read_clock
read_clock-Inv ramsize i t c inv = ground arith

read_memory-Inv :
    (ramsize i : ℕ) (t : Tm) (c : Cmos)
    → Inv ramsize c
    → Safe (λ q. Inv ramsize q.1) (read_memory t i c)
unfolding read_memory
read_memory-Inv ramsize i t c inv = ground arith

write_data-Inv :
    (ramsize val : ℕ) (c : Cmos) → Inv ramsize c → Safe (Inv ramsize) (write_data val c)
unfolding write_data
write_data-Inv ramsize val c inv = ground arith

pub cmos_inb-Inv :
    (ramsize port : ℕ) (t : Tm) (c : Cmos)
    → Inv ramsize c
    → Safe (λ q. Inv ramsize q.1) (cmos_inb t port c)
unfolding cmos_inb
cmos_inb-Inv ramsize port t c i =
    ground
      (arith, read_clock-Inv ramsize c.indexreg t c i, read_memory-Inv ramsize c.indexreg t c i)

pub cmos_outb-Inv :
    (ramsize port val : ℕ) (c : Cmos) → Inv ramsize c → Safe (Inv ramsize) (cmos_outb port val c)
unfolding cmos_outb
cmos_outb-Inv ramsize port val c i = ground (arith, write_data-Inv ramsize val c i)

step-Inv : (ramsize : ℕ) (a : Access) (c : Cmos) → Inv ramsize c → Safe (Inv ramsize) (step a c)
unfolding step
step-Inv ramsize (in_byte t port) c i =
    Safe->>= (λ q. Inv ramsize q.1) (Inv ramsize) (cmos_inb t port c) (λ q. ok q.1)
      (cmos_inb-Inv ramsize port t c i) (λ q j. j)
step-Inv ramsize (out_byte port val) c i = cmos_outb-Inv ramsize port val c i

pub x86_cmos_init-Inv : (ramsize : ℕ) → Inv ramsize (x86_cmos_init ramsize)
x86_cmos_init-Inv ramsize = record {
  index = omega arith;
  divider = refl;
  rate = refl;
  status_b = refl;
  status_d = refl;
  memory = refl;
}

-- No sequence of accesses after the initialisation changes the status register B, so the clock stays
-- in 12-hour form and decimal digits whatever the guest writes to that register; the battery's
-- state, the rate, the divider and the size of the memory stay as well.
pub run_cmos-Inv :
    (ramsize : ℕ) (accesses : List Access)
    → Safe (Inv ramsize) (run step accesses (x86_cmos_init ramsize))
run_cmos-Inv ramsize accesses =
    run-Safe step (Inv ramsize) (step-Inv ramsize) accesses (x86_cmos_init ramsize)
      (x86_cmos_init-Inv ramsize)
