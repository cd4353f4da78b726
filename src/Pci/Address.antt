-- ===== src/Pci/Address.antt =====
-- devices/x86/pci.c: the address register.
use kvmulate.Prelude.{ℕ, ◌+◌, ◌*◌, ◌/◌, ◌%◌, ◌^◌, ◌<◌, ◌≡◌, ◌↔◌, bit_or, ok, ap, ◌∙◌, ◌>>=◌, arith}
use kvmulate.Prelude.Bits.{or_fields}
use kvmulate.Pci.{Pci, pci_outl, pci_inl, readback, write_address}

-- The four fields that the controller keeps do not overlap.
fields :
    (e b d i : ℕ)
    → b < 16
    → d < 32
    → i < 256
    → bit_or (bit_or (bit_or (e * 2 ^ 31) (b * 2 ^ 16)) (d * 2 ^ 11)) i
      ≡ e * 2 ^ 31 + b * 2 ^ 16 + d * 2 ^ 11 + i
fields e b d i hb hd hi =
    let high = or_fields 31 e (b * 2 ^ 16) (omega arith) in
    let mid : bit_or (e * 2 ^ 31 + b * 2 ^ 16) (d * 2 ^ 11) ≡ e * 2 ^ 31 + b * 2 ^ 16 + d * 2 ^ 11 =
      ap (λ (t : ℕ). bit_or t (d * 2 ^ 11)) (omega arith)
      ∙ or_fields 16 (e * 2 ^ 15 + b) (d * 2 ^ 11) (omega arith)
      ∙ omega arith in
    let low : bit_or (e * 2 ^ 31 + b * 2 ^ 16 + d * 2 ^ 11) i
        ≡ e * 2 ^ 31 + b * 2 ^ 16 + d * 2 ^ 11 + i =
      ap (λ (t : ℕ). bit_or t i) (omega arith)
      ∙ or_fields 11 (e * 2 ^ 20 + b * 2 ^ 5 + d) i (omega arith)
      ∙ omega arith in
    ap (λ (t : ℕ). bit_or (bit_or t (d * 2 ^ 11)) i) high ∙ ap (λ (t : ℕ). bit_or t i) mid ∙ low

module _ {S : Type 0} where
  -- What a guest reads back from the address register after writing `val` to it: the enable bit,
  -- the lower four bits of the bus, the device and the register, and 0 for all else, so for the
  -- function number as well. It is `val` itself exactly if those other bits of it were 0.
  pub address_round_trip :
      (val : ℕ) (p : Pci S) (s : S)
      → val < 2 ^ 32
      → ((pci_outl 0 val p s >>= λ q. pci_inl 0 q.0 q.1)
          ≡ ok (
            val / 2 ^ 31 * 2 ^ 31
                + val / 2 ^ 16 % 16 * 2 ^ 16
                + val / 2 ^ 11 % 32 * 2 ^ 11
                + val % 256,
            s,
          ))
        × (((pci_outl 0 val p s >>= λ q. pci_inl 0 q.0 q.1) ≡ ok (val, s))
            ↔ ((val / 2 ^ 8 % 8 ≡ 0) × (val / 2 ^ 20 % 2 ^ 11 ≡ 0)))
  unfolding pci_outl pci_inl readback write_address
  address_round_trip val p s small =
      let kept =
        fields (val / 2 ^ 31) (val / 2 ^ 16 % 16) (val / 2 ^ 11 % 32) (val % 256) (omega arith)
          (omega arith) (omega arith) in
      ground (arith, kept)
