-- ===== src/Tests/Io.antt =====
-- io.c: two handlers, of which the first claims every port that ends in 0x70 or 0x71.
use kvmulate.Prelude.{
  ℕ, ◌≤◌, ◌<◌, ◌≡◌, refl, ◌↔◌, ◌⊎◌, List, [], ◌∷◌, none, some, ok, length, if◌then◌else◌,
}
use kvmulate.Io.{IoHandler, io_outb, lookup_handler, io_register_handler, claims}
use kvmulate.Io.Lookup.{Resolves, lookup_handler_iff, lookup-io_register_handler}

-- Devices whose state is the last byte written.
abbrev plain : ℕ → ℕ → IoHandler ℕ
plain base mask = record {
  base = base;
  mask = mask;
  inb = some (λ s port. ok (s, s));
  inw = none;
  inl = none;
  outb = some (λ s port val. ok val);
  outw = none;
  outl = none;
}

abbrev cmos : IoHandler ℕ
cmos = plain 0x70 0xFE

abbrev keyboard : IoHandler ℕ
keyboard = plain 0x60 0xFFF8

abbrev table : List (IoHandler ℕ)
table = cmos ∷ keyboard ∷ []

keyboard_found : Resolves 0x64 keyboard table
keyboard_found = Resolves.there refl (Resolves.here refl)

write_reaches : io_outb table 0x64 5 1 ≡ ok 5
unfolding io_outb lookup_handler
write_reaches = refl

lookup_handler_iff_example :
    (lookup_handler 0x64 table ≡ some keyboard) ↔ Resolves 0x64 keyboard table
lookup_handler_iff_example = lookup_handler_iff 0x64 keyboard table

lookup-io_register_handler_example :
    (length (cmos ∷ []) < 127)
      × ((io_register_handler keyboard (cmos ∷ [])).0 ≡ some (length (cmos ∷ [])))
      × (lookup_handler 0x64 (io_register_handler keyboard (cmos ∷ [])).1
          ≡ elim (lookup_handler 0x64 (cmos ∷ [])) [
            | some g ↦ some g
            | none ↦ if claims keyboard 0x64 then some keyboard else none
          ])
    ⊎ (127 ≤ length (cmos ∷ [])) × (io_register_handler keyboard (cmos ∷ []) ≡ (none, cmos ∷ []))
lookup-io_register_handler_example = lookup-io_register_handler 0x64 keyboard (cmos ∷ [])
