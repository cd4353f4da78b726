-- ===== src/Mmio.antt =====
-- mmio.c: the list of the devices in memory space, and the dispatch of memory accesses to them. A
-- device's functions take the state `S` of the devices; `none` is a NULL function pointer. The list
-- is the devices of its nodes, from pHead on.
pub mod Lookup
pub mod Data
pub mod Keeping
use kvmulate.Prelude.{
  ℕ, ◌+◌, ◌*◌, ◌/◌, ◌%◌, ◌^◌, bit_and, Bool, true, false, ◌&&◌, not, List, [], ◌∷◌, ◌++◌, Option,
  none, some, Outcome, ok, abort, ◌>>=◌, ◌==◌, if◌then◌else◌, Cells, update, get16, get32, put16,
  put32,
}
use kvmulate.Prelude.Int.{ℤ, pos, negsuc}

pub record MmioDevice (S : Type 0) : Type 0 where
  pub base : ℕ
  pub mask : ℕ
  pub readb : Option (S → ℕ → Outcome (ℕ × S))
  pub readw : Option (S → ℕ → Outcome (ℕ × S))
  pub readl : Option (S → ℕ → Outcome (ℕ × S))
  pub readq : Option (S → ℕ → Outcome (ℕ × S))
  pub writeb : Option (S → ℕ → ℕ → Outcome S)
  pub writew : Option (S → ℕ → ℕ → Outcome S)
  pub writel : Option (S → ℕ → ℕ → Outcome S)
  pub writeq : Option (S → ℕ → ℕ → Outcome S)

-- A uint64 at a byte address.
abbrev pub get64 : Cells → ℕ → ℕ
get64 a i = get32 a i + get32 a (i + 4) * 2 ^ 32

module _ {S : Type 0} where
  -- A device of base 0 is passed over.
  abbrev pub claims : MmioDevice S → ℕ → Bool
  claims d addr = not (d.base == 0) && bit_and addr d.mask == d.base

  unfoldable pub get_device : ℕ → List (MmioDevice S) → Option (MmioDevice S)
  get_device addr [] = none
  get_device addr (d ∷ ds) = if claims d addr then some d else get_device addr ds

  abbrev pub mmio_init : List (MmioDevice S)
  mmio_init = []

  -- The new device goes to the end, whether or not its base was claimed before.
  unfoldable pub mmio_register_device : MmioDevice S → List (MmioDevice S) → List (MmioDevice S)
  mmio_register_device d ds = ds ++ d ∷ []

  abbrev pub mmio_remap_device : List (MmioDevice S) → Outcome (List (MmioDevice S))
  mmio_remap_device ds = abort

  -- A NULL function is caught by an assertion.
  abbrev pub call_write : Option (S → ℕ → ℕ → Outcome S) → ℕ → ℕ → S → Outcome (ℤ × S)
  call_write none address val s = abort
  call_write (some f) address val s = f s address val >>= λ s'. ok (pos 0, s')

  unfoldable pub mmio_write : List (MmioDevice S) → ℕ → ℕ → Cells → S → Outcome (ℤ × S)
  mmio_write ds address len bytes s = elim (get_device address ds) [
    | none ↦ ok (negsuc 0, s)
    | some d ↦
        if len == 1
        then call_write d.writeb address (bytes 0) s
        else if len == 2
        then call_write d.writew address (get16 bytes 0) s
        else if len == 4
        then call_write d.writel address (get32 bytes 0) s
        else if len == 8
        then call_write d.writeq address (get64 bytes 0) s
        else abort
  ]

  -- The value that a function gives is put into the data by `put`.
  abbrev pub call_read :
      Option (S → ℕ → Outcome (ℕ × S)) → ℕ → (ℕ → Cells) → S → Outcome (ℤ × Cells × S)
  call_read none address put s = abort
  call_read (some f) address put s = f s address >>= λ q. ok (pos 0, put q.0, q.1)

  -- The value of eight bytes is stored as a uint32.
  unfoldable pub mmio_read : List (MmioDevice S) → ℕ → ℕ → Cells → S → Outcome (ℤ × Cells × S)
  mmio_read ds address len bytes s = elim (get_device address ds) [
    | none ↦ ok (negsuc 0, bytes, s)
    | some d ↦
        if len == 1
        then call_read d.readb address (λ v. update bytes 0 v) s
        else if len == 2
        then call_read d.readw address (λ v. put16 bytes 0 v) s
        else if len == 4
        then call_read d.readl address (λ v. put32 bytes 0 v) s
        else if len == 8
        then call_read d.readq address (λ v. put32 bytes 0 (v % 2 ^ 32)) s
        else abort
  ]
