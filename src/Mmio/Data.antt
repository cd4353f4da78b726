-- ===== src/Mmio/Data.antt =====
-- mmio.c: the values that go to a device and come from it.
use kvmulate.Prelude.{
  ℕ, ◌%◌, ◌^◌, ◌<◌, ◌≡◌, ◌/◌, ◌↔◌, List, none, some, Outcome, ok, arith, Cells, get32, Returns,
  get32-put32,
}
use kvmulate.Prelude.Int.{pos, negsuc}
use kvmulate.Mmio.{MmioDevice, get_device, mmio_read, mmio_write, get64}

module _ {S : Type 0} (ds : List (MmioDevice S)) (address : ℕ) (bytes : Cells) (s : S) where
  -- No device: both accesses of every length give -1, and change nothing.
  pub unclaimed_address :
      (len : ℕ)
      → get_device address ds ≡ none
      → (mmio_write ds address len bytes s ≡ ok (negsuc 0, s))
        × (mmio_read ds address len bytes s ≡ ok (negsuc 0, bytes, s))
  unfolding mmio_write mmio_read
  unclaimed_address len free = ground (arith, free)

  -- A read of eight bytes from a device stores the lower 32 bits of the value only: the other four
  -- bytes of the exit's data stay what they were. So the guest gets the value exactly if they
  -- happened to hold its upper half.
  pub read_quad :
      (d : MmioDevice S) (f : S → ℕ → Outcome (ℕ × S)) (v : ℕ) (t : S)
      → get_device address ds ≡ some d
      → d.readq ≡ some f
      → f s address ≡ ok (v, t)
      → v < 2 ^ 64
      → Returns
          (λ q.
            (q.0 ≡ pos 0)
            × (q.2 ≡ t)
            × (get32 q.1 0 ≡ v % 2 ^ 32)
            × (get32 q.1 4 ≡ get32 bytes 4)
            × ((get64 q.1 0 ≡ v) ↔ (get32 bytes 4 ≡ v / 2 ^ 32)))
          (mmio_read ds address 8 bytes s)
  unfolding mmio_read
  read_quad d f v t found function value wide =
      ground (arith, found, function, value, get32-put32 bytes 0 (v % 2 ^ 32))
