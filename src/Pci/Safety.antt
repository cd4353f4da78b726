-- ===== src/Pci/Safety.antt =====
-- devices/x86/pci.c: which registers of the devices a guest reaches, and what a device has to
-- promise for that.
use kvmulate.Prelude.{
  ℕ, zero, suc, ◌∙◌, ◌+◌, ◌-◌, ◌%◌, ◌^◌, ◌<◌, ◌≤◌, ◌≡◌, sym, ◌⊎◌, inl, inr, List, [], ◌∷◌, some,
  none, Option, Outcome, ok, abort, fault, ◌>>=◌, leb, ◌==◌, arith, Safe, Safe->>=, run, run-Safe,
  Option-cases, Bool-cases, true, false, length,
}
use mathlib.Core.Path.{subst}
use kvmulate.Prelude.Int.{ℤ, pos}
use kvmulate.Pci.{
  Pci, PciDev, pci_inb, pci_inw, pci_inl, pci_outb, pci_outw, pci_outl, get_device, write_address,
  call_read, call_write, x86_pci_init, config_register,
}
use kvmulate.Pci.Devices.{
  get_device-slots, register_all, registered-slots, register_all-index, listed, numbered,
}

-- The guest's accesses: of a byte or a word at any of the eight ports, and of a double word at the
-- address port or from the data port on.
pub data Access : Type 0 where
  in_byte in_word in_long : ℕ → Access
  out_byte out_word : ℕ → ℕ → Access
  out_address : ℕ → Access
  out_data : ℕ → ℕ → Access

module _ {S : Type 0} where
  abbrev after_read : Pci S → Outcome (ℕ × S) → Outcome (Pci S × S)
  after_read p r = r >>= λ q. ok (p, q.1)

  pub step : Access → Pci S × S → Outcome (Pci S × S)
  step (in_byte port) (p, s) = after_read p (pci_inb (port % 8) p s)
  step (in_word port) (p, s) = after_read p (pci_inw (port % 8) p s)
  step (in_long port) (p, s) = after_read p (pci_inl (port % 8) p s)
  step (out_byte port val) (p, s) = pci_outb (port % 8) (val % 256) p s
  step (out_word port val) (p, s) = pci_outw (port % 8) (val % 65536) p s
  step (out_address val) (p, s) = pci_outl 0 (val % 2 ^ 32) p s
  step (out_data port val) (p, s) = pci_outl (4 + port % 4) (val % 2 ^ 32) p s

module _ {S : Type 0} (I : S → Type 0) where
  -- A function for reads, of which calls with a register number up to 258 keep the devices' invariant.
  abbrev pub Reads : Option (S → ℤ → Outcome (ℕ × S)) → Type 0
  Reads none = ⊥
  Reads (some f) = (s : S) (r : ℕ) → r < 259 → I s → Safe (λ q. I q.1) (f s (pos r))

  abbrev pub Writes : Option (S → ℤ → ℕ → Outcome S) → Type 0
  Writes none = ⊥
  Writes (some f) = (s : S) (r val : ℕ) → r < 259 → I s → Safe I (f s (pos r) val)

  -- What a PCI device promises.
  pub record Serves (d : PciDev S) : Type 0 where
    pub readb : Reads d.readb
    pub readw : Reads d.readw
    pub readl : Reads d.readl
    pub writeb : Writes d.writeb
    pub writew : Writes d.writew
    pub writel : Writes d.writel

  pub record Inv (q : Pci S × S) : Type 0 where
    index : q.0.index < 256
    devices : (j : ℕ) (d : PciDev S) → q.0.slots j ≡ some d → Serves d
    state : I q.1

  -- At a port of the data register, the register number of a byte index.
  data_register :
      (index port : ℕ)
      → index < 256
      → port < 8
      → leb 4 port ≡ true
      → (r : ℕ) × (config_register index port ≡ pos r) × (r < 259)
  data_register index port small to from = (index + port - 4, ground arith, ground arith)

  selected :
      (q : Pci S × S)
      → Inv q
      → (get_device q.0 ≡ none) ⊎ (d : PciDev S) × (get_device q.0 ≡ some d) × Serves d
  selected q i = elim (Option-cases (get_device q.0)) [
    | inl absent ↦ inl absent
    | inr (d, found) ↦
        let (j, at) = get_device-slots q.0 d found in inr (d, found, i.devices j d at)
  ]

  read-Safe :
      (f : Option (S → ℤ → Outcome (ℕ × S))) (s : S) (r : ℕ)
      → Reads f
      → r < 259
      → I s
      → Safe (λ q. I q.1) (call_read f (pos r) s)
  read-Safe none s r h low st = absurd h
  read-Safe (some f) s r h low st = h s r low st

  write-Safe :
      (f : Option (S → ℤ → ℕ → Outcome S)) (p : Pci S) (s : S) (r val : ℕ)
      → Writes f
      → r < 259
      → Inv (p, s)
      → Safe Inv (call_write f (pos r) val p s)
  write-Safe none p s r val h low i = absurd h
  write-Safe (some f) p s r val h low i =
      Safe->>= I Inv (f s (pos r) val) _ (h s r val low i.state)
        (λ t st. record { index = i.index; devices = i.devices; state = st })

  module _ (p : Pci S) (s : S) (port : ℕ) (i : Inv (p, s)) (small : port < 8) where
    inb-Safe : Safe (λ q. I q.1) (pci_inb port p s)
    unfolding pci_inb
    inb-Safe = elim (selected (p, s) i) [
      | inl absent ↦ ground (arith, absent, i.state)
      | inr (d, found, a) ↦ elim (Bool-cases (leb 4 port)) [
        | inl data_port ↦
            let (r, at, low) = data_register p.index port i.index small data_port in
            rw (data_port, found, at) (read-Safe d.readb s r a.readb low i.state)
        | inr other ↦ rw other tt
      ]
    ]

    inw-Safe : Safe (λ q. I q.1) (pci_inw port p s)
    unfolding pci_inw
    inw-Safe = elim (selected (p, s) i) [
      | inl absent ↦ ground (arith, absent, i.state)
      | inr (d, found, a) ↦ elim (Bool-cases (leb 4 port)) [
        | inl data_port ↦
            let (r, at, low) = data_register p.index port i.index small data_port in
            rw (data_port, found, at) (read-Safe d.readw s r a.readw low i.state)
        | inr other ↦ rw other tt
      ]
    ]

    inl-Safe : Safe (λ q. I q.1) (pci_inl port p s)
    unfolding pci_inl
    inl-Safe = elim (selected (p, s) i) [
      | inl absent ↦ ground (arith, absent, i.state)
      | inr (d, found, a) ↦ elim (Bool-cases (leb 4 port)) [
        | inl data_port ↦
            let (r, at, low) = data_register p.index port i.index small data_port in
            let is_data : (port == 0) ≡ false = ground (arith, data_port) in
            rw (is_data, data_port, found, at) (read-Safe d.readl s r a.readl low i.state)
        | inr other ↦ ground (arith, other, i.state)
      ]
    ]

    outb-Safe : (val : ℕ) → val < 256 → Safe Inv (pci_outb port val p s)
    unfolding pci_outb
    outb-Safe val byte = elim (selected (p, s) i) [
      | inl absent ↦ ground (arith, absent, i.index, i.devices, i.state)
      | inr (d, found, a) ↦ elim (Bool-cases (leb 4 port)) [
        | inl data_port ↦
            let (r, at, low) = data_register p.index port i.index small data_port in
            let is_data : leb port 3 ≡ false = ground (arith, data_port) in
            rw (is_data, found, at) (write-Safe d.writeb p s r val a.writeb low i)
        | inr other ↦ ground (arith, other, i.index, i.devices, i.state)
      ]
    ]

    outw-Safe : (val : ℕ) → Safe Inv (pci_outw port val p s)
    unfolding pci_outw
    outw-Safe val = elim (selected (p, s) i) [
      | inl absent ↦ ground (arith, absent, i.index, i.devices, i.state)
      | inr (d, found, a) ↦ elim (Bool-cases (leb 4 port)) [
        | inl data_port ↦
            let (r, at, low) = data_register p.index port i.index small data_port in
            let is_data : leb port 3 ≡ false = ground (arith, data_port) in
            rw (is_data, found) (word d.writew a.writew (config_register p.index port) r at low)
        | inr other ↦ ground (arith, other)
      ]
    ]
      where
        word :
            (f : Option (S → ℤ → ℕ → Outcome S))
            → Writes f
            → (reg : ℤ) (r : ℕ) → reg ≡ pos r
            → r < 259
            → Safe Inv (elim f [ none ↦ abort | some g ↦ call_write (some g) reg val p s ])
        word none h reg r at low = tt
        word (some g) h reg r at low = rw at (write-Safe (some g) p s r val h low i)

    outl-Safe : (val : ℕ) → leb 4 port ≡ true → Safe Inv (pci_outl port val p s)
    unfolding pci_outl
    outl-Safe val data_port = elim (selected (p, s) i) [
      | inl absent ↦ ground (arith, absent, i.index, i.devices, i.state)
      | inr (d, found, a) ↦ elim (Bool-cases (p.configspace == 1)) [
        | inl enabled ↦
            let (r, at, low) = data_register p.index port i.index small data_port in
            let is_data : (port == 0) ≡ false = ground (arith, data_port) in
            rw (is_data, enabled, found, at) (write-Safe d.writel p s r val a.writel low i)
        | inr disabled ↦ ground (arith, disabled, data_port)
      ]
    ]

  read-Inv :
      (p : Pci S) (s : S) (r : Outcome (ℕ × S))
      → Inv (p, s)
      → Safe (λ q. I q.1) r
      → Safe Inv (after_read p r)
  read-Inv p s (ok q) i h = record { index = i.index; devices = i.devices; state = h }
  read-Inv p s abort i h = tt
  read-Inv p s fault i h = h

  step-Inv : (a : Access) (q : Pci S × S) → Inv q → Safe Inv (step a q)
  unfolding step pci_outl write_address
  step-Inv (in_byte port) (p, s) i = read-Inv p s _ i (inb-Safe p s (port % 8) i (omega arith))
  step-Inv (in_word port) (p, s) i = read-Inv p s _ i (inw-Safe p s (port % 8) i (omega arith))
  step-Inv (in_long port) (p, s) i = read-Inv p s _ i (inl-Safe p s (port % 8) i (omega arith))
  step-Inv (out_byte port val) (p, s) i =
      outb-Safe p s (port % 8) i (omega arith) (val % 256) (omega arith)
  step-Inv (out_word port val) (p, s) i = outw-Safe p s (port % 8) i (omega arith) (val % 65536)
  step-Inv (out_address val) (p, s) i = record {
    index = omega arith;
    devices = i.devices;
    state = i.state;
  }
  step-Inv (out_data port val) (p, s) i =
      outl-Safe p s (4 + port % 4) i (omega arith) (val % 2 ^ 32) (ground arith)

  abbrev pub AllServe : List (PciDev S) → Type 0
  AllServe [] = Unit {0}
  AllServe (d ∷ ds) = Serves d × AllServe ds

  listed-Serves :
      (k : ℕ) (ds : List (PciDev S)) (j : ℕ) (d : PciDev S)
      → AllServe ds
      → listed k ds j ≡ some d
      → Serves d
  unfolding listed
  listed-Serves k [] j d all e = cc
  listed-Serves k (g ∷ ds) zero d all e =
      let same : numbered k g ≡ d = cc in
      subst Serves same (record {
        readb = all.0.readb;
        readw = all.0.readw;
        readl = all.0.readl;
        writeb = all.0.writeb;
        writew = all.0.writew;
        writel = all.0.writel;
      })
  listed-Serves k (g ∷ ds) (suc j) d all e = listed-Serves (suc k) ds j d all.1 e

  start-Inv :
      (ds : List (PciDev S)) (s : S)
      → length ds ≤ 256
      → AllServe ds
      → I s
      → Inv (register_all ds x86_pci_init, s)
  start-Inv ds s room all st = record {
    index = omega (arith, register_all-index ds);
    devices = λ j d e. listed-Serves 0 ds j d all (sym (registered-slots ds j room) ∙ e);
    state = st;
  }

  -- On a bus of at most 256 devices whose functions, called with a register number up to 258, keep an
  -- invariant of the devices' state and do no access outside an array: no sequence of accesses of a
  -- byte or a word at any of the bus's eight ports and of a double word at the address port or from
  -- the data port on does an access outside an array, and the invariant is kept.
  pub run_bus-Inv :
      (ds : List (PciDev S)) (s : S) (accesses : List Access)
      → length ds ≤ 256
      → AllServe ds
      → I s
      → Safe Inv (run step accesses (register_all ds x86_pci_init, s))
  run_bus-Inv ds s accesses room all st =
      run-Safe step Inv step-Inv accesses _ (start-Inv ds s room all st)
