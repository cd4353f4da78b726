-- ===== src/Mmio/Lookup.antt =====
-- mmio.c: which device an address resolves to.
use kvmulate.Prelude.{
  ℕ, ◌%◌, ◌^◌, ◌<◌, ◌≡◌, ◌≢◌, refl, ◌↔◌, inl, inr, true, false, List, [], ◌∷◌, none, some, arith,
  bit_and, ==_iff, Bool-cases, if◌then◌else◌,
}
use mathlib.Core.Path.{subst}
use kvmulate.Prelude.Bits.{and_high}
use kvmulate.Mmio.{MmioDevice, claims, get_device, mmio_register_device}

module _ {S : Type 0} where
  -- `d` claims the address, and nothing that was registered before it does.
  pub data Resolves (addr : ℕ) (d : MmioDevice S) : List (MmioDevice S) → Type 0 where
    here :
        {ds : List (MmioDevice S)}
        → d.base ≢ 0
        → bit_and addr d.mask ≡ d.base
        → Resolves addr d (d ∷ ds)
    there :
        {e : MmioDevice S} {ds : List (MmioDevice S)}
        → claims e addr ≡ false
        → Resolves addr d ds
        → Resolves addr d (e ∷ ds)

  claims_iff :
      (d : MmioDevice S) (addr : ℕ)
      → (claims d addr ≡ true) ↔ ((d.base ≢ 0) × (bit_and addr d.mask ≡ d.base))
  claims_iff d addr = ground (arith, ==_iff (bit_and addr d.mask) d.base, ==_iff d.base 0)

  get_device_finds :
      (addr : ℕ) (d : MmioDevice S) (ds : List (MmioDevice S))
      → Resolves addr d ds
      → get_device addr ds ≡ some d
  unfolding get_device
  get_device_finds addr d _ (here b m) = rw ((claims_iff d addr).1 (b, m))
  get_device_finds addr d (e ∷ ds) (there miss r) = rw miss (get_device_finds addr d ds r)

  first_claims :
      (addr : ℕ) (g d : MmioDevice S) (ds : List (MmioDevice S))
      → claims g addr ≡ true
      → some g ≡ some d
      → Resolves addr d (g ∷ ds)
  first_claims addr g d ds hit e =
      let same : g ≡ d = cc in
      let (base, masked) = (claims_iff g addr).0 hit in
      subst (λ k. Resolves addr k (g ∷ ds)) same (here base masked)

  get_device_found :
      (addr : ℕ) (d : MmioDevice S) (ds : List (MmioDevice S))
      → get_device addr ds ≡ some d
      → Resolves addr d ds
  unfolding get_device
  get_device_found addr d [] e = cc
  get_device_found addr d (g ∷ ds) e = elim (Bool-cases (claims g addr)) [
    | inl hit ↦ first_claims addr g d ds hit (rw hit at e)
    | inr miss ↦ there miss (get_device_found addr d ds (rw miss at e))
  ]

  -- The list is searched in the order of registration: an address resolves to a device exactly when
  -- the device's base is not 0 and is the address under the device's mask, and no device that was
  -- registered earlier claims the address.
  pub get_device_iff :
      (addr : ℕ) (d : MmioDevice S) (ds : List (MmioDevice S))
      → (get_device addr ds ≡ some d) ↔ Resolves addr d ds
  get_device_iff addr d ds = (get_device_found addr d ds, get_device_finds addr d ds)

  -- A device that is registered gets those of the addresses it claims that no device had before.
  pub get_device-mmio_register_device :
      (addr : ℕ) (d : MmioDevice S) (ds : List (MmioDevice S))
      → get_device addr (mmio_register_device d ds) ≡ elim (get_device addr ds) [
        | some e ↦ some e
        | none ↦ if claims d addr then some d else none
      ]
  unfolding get_device mmio_register_device
  get_device-mmio_register_device addr d [] = refl
  get_device-mmio_register_device addr d (e ∷ ds) = elim (Bool-cases (claims e addr)) [
    | inl hit ↦ rw hit
    | inr miss ↦ rw miss (get_device-mmio_register_device addr d ds)
  ]

  abbrev pub AllMasks32 : List (MmioDevice S) → Type 0
  AllMasks32 [] = Unit {0}
  AllMasks32 (d ∷ ds) = (d.mask < 2 ^ 32) × AllMasks32 ds

  -- The masks have 32 bits and cut off the others of an address: an address of 64 bits resolves to
  -- the device that its lower 32 bits resolve to.
  pub get_device_alias :
      (addr : ℕ) (ds : List (MmioDevice S))
      → AllMasks32 ds
      → get_device addr ds ≡ get_device (addr % 2 ^ 32) ds
  unfolding get_device
  get_device_alias addr [] small = refl
  get_device_alias addr (d ∷ ds) small =
      rw (and_high 32 addr d.mask small.0, get_device_alias addr ds small.1)
