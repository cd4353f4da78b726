-- ===== src/Machine/Ports.antt =====
-- devices/devices.c and io.c: which handler a guest reaches at a port.
use kvmulate.Prelude.{
  get_elem?, ℕ, ◌<◌, ◌≤◌, ◌≡◌, refl, ap, sym, ◌∙◌, bit_and, true, List, [], ◌∷◌, map, Option, none,
  some, ok, Returns, arith, ◌==◌, if◌then◌else◌, ==_iff, Bool-cases, inl, inr,
}
use mathlib.Core.Option
use native.Mathlib.Decide.{dec_lt}
use kvmulate.Prelude.Bytes.{every, every_lem}
use kvmulate.Prelude.Masks.{
  mask_all, mask_2, mask_4, mask_8, mask_16, mask_32, mask_low_byte, mask_ata,
}
use kvmulate.Io.{IoHandler, lookup_handler, claims, io_register_handler, io_remap_handler, replace}
use kvmulate.Machine.{Machine, port_table, register_cmos, register_handlers}
use kvmulate.Machine.Owners.{Owner, handler_of, owner, registered}

port_table_lem : port_table ≡ ok (map handler_of registered)
unfolding port_table register_cmos register_handlers io_register_handler io_remap_handler replace
port_table_lem = refl

abbrev search_owner : ℕ → List Owner → Option Owner
search_owner port [] = none
search_owner port (o ∷ os) = if claims (handler_of o) port then some o else search_owner port os

lookup-search_owner :
    (port : ℕ) (os : List Owner)
    → lookup_handler port (map handler_of os) ≡ Option.map handler_of (search_owner port os)
unfolding lookup_handler
lookup-search_owner port [] = refl
lookup-search_owner port (o ∷ os) = elim (Bool-cases (claims (handler_of o) port)) [
  | inl hit ↦ rw hit
  | inr miss ↦ rw miss (lookup-search_owner port os)
]

-- The place of a handler in the table, and 21 for a port that is free.
abbrev place : Option Owner → ℕ
place none = 21
place (some Owner.rtc) = 0
place (some Owner.system_control) = 1
place (some Owner.bios_debug) = 2
place (some Owner.dma_first) = 3
place (some Owner.dma_second) = 4
place (some Owner.dma_page) = 5
place (some Owner.pci) = 6
place (some Owner.firmware) = 7
place (some Owner.keyboard) = 8
place (some Owner.parallel_first) = 9
place (some Owner.parallel_second) = 10
place (some Owner.serial_first) = 11
place (some Owner.serial_second) = 12
place (some Owner.serial_third) = 13
place (some Owner.serial_fourth) = 14
place (some Owner.vga_first) = 15
place (some Owner.vga_second) = 16
place (some Owner.vga_debug) = 17
place (some Owner.vbe) = 18
place (some Owner.floppy) = 19
place (some Owner.disk) = 20

get_elem?-place : (o : Option Owner) → get_elem? registered (place o) ≡ o
get_elem?-place none = refl
get_elem?-place (some Owner.rtc) = refl
get_elem?-place (some Owner.system_control) = refl
get_elem?-place (some Owner.bios_debug) = refl
get_elem?-place (some Owner.dma_first) = refl
get_elem?-place (some Owner.dma_second) = refl
get_elem?-place (some Owner.dma_page) = refl
get_elem?-place (some Owner.pci) = refl
get_elem?-place (some Owner.firmware) = refl
get_elem?-place (some Owner.keyboard) = refl
get_elem?-place (some Owner.parallel_first) = refl
get_elem?-place (some Owner.parallel_second) = refl
get_elem?-place (some Owner.serial_first) = refl
get_elem?-place (some Owner.serial_second) = refl
get_elem?-place (some Owner.serial_third) = refl
get_elem?-place (some Owner.serial_fourth) = refl
get_elem?-place (some Owner.vga_first) = refl
get_elem?-place (some Owner.vga_second) = refl
get_elem?-place (some Owner.vga_debug) = refl
get_elem?-place (some Owner.vbe) = refl
get_elem?-place (some Owner.floppy) = refl
get_elem?-place (some Owner.disk) = refl

-- The ports below 0xD00 one by one; above, only the clock's are claimed.
low_ports : every 0xD00 (λ port. place (search_owner port registered) == place (owner port)) ≡ true
unfolding every
low_ports = refl

above_masks :
    (port : ℕ)
    → port < 65536
    → 0xD00 ≤ port
    → (0xD00 ≤ bit_and port 0xFFFF)
      × (0xD00 ≤ bit_and port 0xFFFE)
      × (0xD00 ≤ bit_and port 0xFFFC)
      × (0xD00 ≤ bit_and port 0xFFF8)
      × (0xD00 ≤ bit_and port 0xFFF0)
      × (0xD00 ≤ bit_and port 0xFFE0)
      × (0xC00 ≤ bit_and port 0xFDF8)
above_masks port h lo = (
  omega (arith, mask_all port h),
  omega (arith, mask_2 port h),
  omega (arith, mask_4 port h),
  omega (arith, mask_8 port h),
  omega (arith, mask_16 port h),
  omega (arith, mask_32 port h),
  omega (arith, mask_ata port h),
)

high_ports : (port : ℕ) → port < 65536 → 0xD00 ≤ port → search_owner port registered ≡ owner port
high_ports port h lo = ground (arith, above_masks port h lo, mask_low_byte port)

search_owner-registered : (port : ℕ) → port < 65536 → search_owner port registered ≡ owner port
search_owner-registered port h = elim (dec_lt port 0xD00) [
  | yes low ↦
      sym (get_elem?-place (search_owner port registered))
      ∙ ap (get_elem? registered) (
          (==_iff _ _).0 (
            every_lem 0xD00 (λ p. place (search_owner p registered) == place (owner p)) port
              low_ports low))
      ∙ get_elem?-place (owner port)
  | no high ↦ high_ports port h (omega arith)
]

pub lookup-owner :
    (port : ℕ)
    → port < 65536
    → lookup_handler port (map handler_of registered) ≡ Option.map handler_of (owner port)
lookup-owner port h =
    lookup-search_owner port registered
    ∙ ap (Option.map handler_of) (search_owner-registered port h)

pub of_table :
    (P : List (IoHandler Machine) → Type 0) → P (map handler_of registered) → Returns P port_table
of_table P h = rw port_table_lem h

-- At every port the guest reaches the one handler whose range of ports contains it, or none, but
-- that the clock has all ports whose lower byte is 0x70 or 0x71: of the disk controller's two
-- ranges the second, 0x3F0 to 0x3F7, belongs to the floppy controller.
pub port_owner :
    (port : ℕ)
    → port < 65536
    → Returns (λ table. lookup_handler port table ≡ Option.map handler_of (owner port)) port_table
port_owner port h =
    of_table (λ table. lookup_handler port table ≡ Option.map handler_of (owner port))
      (lookup-owner port h)
