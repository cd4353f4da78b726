-- ===== src/Tests/Memory.antt =====
-- mmio.c and system.c: two devices in memory space, and exits.
use kvmulate.Prelude.{
  ℕ, ◌+◌, ◌^◌, ◌≡◌, refl, true, false, [], ◌∷◌, some, none, ok, ◌>>=◌, zeros, run,
}
use kvmulate.Io.{IoHandler}
use kvmulate.Mmio.{MmioDevice, get_device}
use kvmulate.Exits.{handle_io}
use kvmulate.Exits.Streams.{write_port, read_ports, get_elements, placed, handle_io_lem}

-- A memory device of one double word at 0xFEE00000, whose state is that word.
abbrev word_device : MmioDevice ℕ
word_device = record {
  base = 0xFEE00000;
  mask = 0xFFFFF000;
  readb = none;
  readw = none;
  readl = some (λ s address. ok (s, s));
  readq = some (λ s address. ok (s + 2 ^ 32, s));
  writeb = none;
  writew = none;
  writel = some (λ s address val. ok val);
  writeq = none;
}

abbrev screen : MmioDevice ℕ
screen = record word_device { base = 0xA0000; mask = 0xFFFE0000 }

word_found : get_device 0xFEE00010 (word_device ∷ []) ≡ some word_device
unfolding get_device
word_found = refl

-- A port device that counts.
abbrev counter : IoHandler ℕ
counter = record {
  base = 0x300;
  mask = 0xFFFF;
  inb = some (λ s port. ok (s, s + 1));
  inw = none;
  inl = none;
  outb = some (λ s port val. ok (s + val));
  outw = none;
  outl = none;
}

handle_io_lem_example :
    (handle_io (counter ∷ []) true 0x300 1 3 0 zeros 5 ≡ (
      run (write_port (counter ∷ []) 0x300 1) (get_elements 1 zeros 0 3) 5 >>= λ t. ok (zeros, t)))
    × (handle_io (counter ∷ []) false 0x300 1 3 0 zeros 5
        ≡ (read_ports (counter ∷ []) 0x300 1 3 5 >>= placed (counter ∷ []) 0x300 1 zeros 0))
handle_io_lem_example = handle_io_lem (counter ∷ []) 0x300 1 3 0 zeros 5
