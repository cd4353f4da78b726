-- ===== src/Exits.antt =====
-- system.c: what sys_run_vcpu does on the exits of KVM_RUN for a port or a memory access. The data of
-- the exit are the bytes of the kvm_run page; the port handlers do not see them.
pub mod Streams
pub mod Disk
use kvmulate.Prelude.{
  ℕ, zero, suc, ◌+◌, Bool, true, false, List, Outcome, ok, abort, ◌>>=◌, ◌==◌, if◌then◌else◌, Cells,
  update, get16, get32, put16, put32,
}
use kvmulate.Prelude.Int.{ℤ, pos, negsuc}
use kvmulate.Io.{IoHandler, io_outb, io_outw, io_outl, io_inb, io_inw, io_inl}
use kvmulate.Mmio.{MmioDevice, mmio_read, mmio_write}

module _ {S : Type 0} where
  -- One element of `size` bytes at `offset`.
  abbrev pub out_element : List (IoHandler S) → ℕ → ℕ → Cells → ℕ → S → Outcome S
  out_element hs port size page offset s =
      if size == 1
      then io_outb hs port (page offset) s
      else if size == 2
      then io_outw hs port (get16 page offset) s
      else if size == 4
      then io_outl hs port (get32 page offset) s
      else abort

  abbrev pub in_element : List (IoHandler S) → ℕ → ℕ → Cells → ℕ → S → Outcome (Cells × S)
  in_element hs port size page offset s =
      if size == 1
      then (io_inb hs port s >>= λ q. ok (update page offset q.0, q.1))
      else if size == 2
      then (io_inw hs port s >>= λ q. ok (put16 page offset q.0, q.1))
      else if size == 4
      then (io_inl hs port s >>= λ q. ok (put32 page offset q.0, q.1))
      else abort

  -- The rounds of the loops: `count` elements are left.
  unfoldable pub out_loop : List (IoHandler S) → ℕ → ℕ → Cells → ℕ → ℕ → S → Outcome S
  out_loop hs port size page zero offset s = ok s
  out_loop hs port size page (suc count) offset s =
      out_element hs port size page offset s >>= out_loop hs port size page count (offset + size)

  pub in_loop : List (IoHandler S) → ℕ → ℕ → ℕ → ℕ → Cells × S → Outcome (Cells × S)
  in_loop hs port size zero offset q = ok q
  in_loop hs port size (suc count) offset (page, s) =
      in_element hs port size page offset s >>= in_loop hs port size count (offset + size)

  unfoldable pub handle_io :
      List (IoHandler S) → Bool → ℕ → ℕ → ℕ → ℕ → Cells → S → Outcome (Cells × S)
  unfolding out_loop in_loop
  handle_io hs true port size count data_offset page s =
      out_loop hs port size page count data_offset s >>= λ s'. ok (page, s')
  handle_io hs false port size count data_offset page s =
      in_loop hs port size count data_offset (page, s)

  -- A result other than 0 ends in an assertion.
  abbrev pub handle_mmio : List (MmioDevice S) → Bool → ℕ → ℕ → Cells → S → Outcome (Cells × S)
  handle_mmio ds true phys_addr len bytes s = mmio_write ds phys_addr len bytes s >>= λ q.
      elim q.0 [ pos zero ↦ ok (bytes, q.1) | _ ↦ abort ]
  handle_mmio ds false phys_addr len bytes s =
      mmio_read ds phys_addr len bytes s >>= λ q. elim q.0 [ pos zero ↦ ok (q.1, q.2) | _ ↦ abort ]
