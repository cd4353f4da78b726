-- ===== src/Pci.antt =====
-- devices/x86/pci.c: the registers of configuration mechanism 1, at the ports from 0xCF8 on, and the
-- table of PCI devices. The devices' functions take the state `S` of the devices and a register
-- number, a C int that can be negative; `none` is NULL. Each device that is registered is an object
-- of its own.
pub mod Address
pub mod Devices
pub mod Safety
pub mod Together
use kvmulate.Prelude.{
  ℕ, zero, suc, ◌+◌, ◌-◌, ◌*◌, ◌/◌, ◌%◌, ◌^◌, bit_or, Bool, ◌&&◌, Option, none, some, Outcome, ok,
  abort, fault, assert, ◌>>=◌, ◌>>◌, leb, ◌==◌, if◌then◌else◌,
}
use kvmulate.Prelude.Int.{ℤ, pos, negsuc}

pub record PciDev (S : Type 0) : Type 0 where
  pub bus : ℕ
  pub dev : ℕ
  pub fn : ℕ
  pub readb : Option (S → ℤ → Outcome (ℕ × S))
  pub readw : Option (S → ℤ → Outcome (ℕ × S))
  pub readl : Option (S → ℤ → Outcome (ℕ × S))
  pub writeb : Option (S → ℤ → ℕ → Outcome S)
  pub writew : Option (S → ℤ → ℕ → Outcome S)
  pub writel : Option (S → ℤ → ℕ → Outcome S)

pub record Pci (S : Type 0) : Type 0 where
  pub configspace : ℕ
  pub bus : ℕ
  pub dev : ℕ
  pub fn : ℕ
  pub index : ℕ
  pub devs : ℕ
  pub slots : ℕ → Option (PciDev S)

abbrev pub max_fpb : ℕ
max_fpb = 256

-- state.index + port - 0x4
abbrev pub config_register : ℕ → ℕ → ℤ
config_register index port =
    if leb 4 (index + port) then pos (index + port - 4) else negsuc (3 - (index + port))

module _ {S : Type 0} where
  -- The bus, device and function numbers that the guest selected.
  abbrev pub selects : Pci S → PciDev S → Bool
  selects p d = d.bus == p.bus && d.dev == p.dev && d.fn == p.fn

  -- The rest of a search, `n` slots from slot `i` on.
  pub search_slots : ℕ → ℕ → Pci S → Option (PciDev S)
  search_slots zero i p = none
  search_slots (suc n) i p =
      let rest = search_slots n (i + 1) p in
      elim (p.slots i) [ none ↦ rest | some d ↦ if selects p d then some d else rest ]

  unfoldable pub get_device : Pci S → Option (PciDev S)
  get_device p = search_slots max_fpb 0 p

  abbrev pub call_read : Option (S → ℤ → Outcome (ℕ × S)) → ℤ → S → Outcome (ℕ × S)
  call_read none reg s = fault
  call_read (some f) reg s = f s reg

  abbrev pub call_write : Option (S → ℤ → ℕ → Outcome S) → ℤ → ℕ → Pci S → S → Outcome (Pci S × S)
  call_write none reg val p s = fault
  call_write (some f) reg val p s = f s reg val >>= λ s'. ok (p, s')

  pub pci_inb : ℕ → Pci S → S → Outcome (ℕ × S)
  pci_inb port p s =
      if leb 4 port
      then elim (get_device p) [
        | none ↦ ok (0xFF, s)
        | some d ↦ call_read d.readb (config_register p.index port) s
      ]
      else abort

  pub pci_inw : ℕ → Pci S → S → Outcome (ℕ × S)
  pci_inw port p s =
      if leb 4 port
      then elim (get_device p) [
        | none ↦ ok (0xFFFF, s)
        | some d ↦ call_read d.readw (config_register p.index port) s
      ]
      else abort

  -- configspace << 31 in 32 bits
  pub readback : Pci S → ℕ
  readback p =
      bit_or
        (bit_or (bit_or (p.configspace * 2 ^ 31 % 2 ^ 32) (p.bus % 16 * 2 ^ 16))
          (p.dev % 32 * 2 ^ 11))
        (p.index % 256)

  unfoldable pub pci_inl : ℕ → Pci S → S → Outcome (ℕ × S)
  unfolding readback
  pci_inl port p s =
      if port == 0
      then ok (readback p, s)
      else if leb 4 port
      then elim (get_device p) [
        | none ↦ ok (0xFFFF, s)
        | some d ↦ call_read d.readl (config_register p.index port) s
      ]
      else abort

  -- The index is a byte, of which `& ~0xFF` keeps nothing.
  pub pci_outb : ℕ → ℕ → Pci S → S → Outcome (Pci S × S)
  pci_outb port val p s =
      if leb port 3
      then (if port == 3 then ok (record p { index = val }, s) else abort)
      else elim (get_device p) [
        | none ↦ ok (p, s)
        | some d ↦ call_write d.writeb (config_register p.index port) val p s
      ]

  pub pci_outw : ℕ → ℕ → Pci S → S → Outcome (Pci S × S)
  pci_outw port val p s = if leb port 3 then abort else elim (get_device p) [
    | none ↦ ok (p, s)
    | some d ↦ elim d.writew [
      | none ↦ abort
      | some f ↦ call_write (some f) (config_register p.index port) val p s
    ]
  ]

  unfoldable pub write_address : ℕ → Pci S → Pci S
  write_address val p = record p {
    configspace = val / 2 ^ 31;
    index = val % 256;
    bus = val / 2 ^ 16 % 16;
    dev = val / 2 ^ 11 % 32;
    fn = val / 2 ^ 8 % 8;
  }

  -- Every port but the first is taken for the data port.
  unfoldable pub pci_outl : ℕ → ℕ → Pci S → S → Outcome (Pci S × S)
  unfolding write_address
  pci_outl port val p s =
      if port == 0
      then ok (write_address val p, s)
      else if p.configspace == 1
      then elim (get_device p) [
        | none ↦ ok (p, s)
        | some d ↦ call_write d.writel (config_register p.index port) val p s
      ]
      else abort

  pub x86_pci_init : Pci S
  x86_pci_init = record {
    configspace = 0;
    bus = 0;
    dev = 0;
    fn = 0;
    index = 0;
    devs = 0;
    slots = λ i. none;
  }

  -- The first of `n` slots from slot `i` on that is NULL.
  pub free_slot : ℕ → ℕ → Pci S → Option ℕ
  free_slot zero i p = none
  free_slot (suc n) i p =
      let rest = free_slot n (i + 1) p in elim (p.slots i) [ none ↦ some i | some d ↦ rest ]

  -- The device number is kept in a byte.
  abbrev pub fill_slot : ℕ → PciDev S → Pci S → Pci S
  fill_slot i d p = record p {
    devs = p.devs + 1;
    slots =
        λ j. if j == i then some (record d { bus = 0; dev = p.devs % 256; fn = 0 }) else p.slots j;
  }

  -- The result is -1 if the table is full.
  pub pci_register_dev : PciDev S → Pci S → ℤ × Pci S
  pci_register_dev d p = elim (free_slot max_fpb 0 p) [
    | none ↦ (negsuc 0, p)
    | some i ↦ (pos 0, fill_slot i d p)
  ]
