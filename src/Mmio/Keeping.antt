-- ===== src/Mmio/Keeping.antt =====
-- mmio.c and system.c: what all functions of the devices keep, the exits for memory keep.
use kvmulate.Prelude.{
  ℕ, zero, suc, ◌≡◌, true, false, Bool, List, [], ◌∷◌, Option, none, some, Outcome, ok, abort,
  IfReturns, IfReturns->>=, Bool-cases, inl, inr, Cells, refl, arith, update, get16, get32, put16,
  put32, ◌%◌, ◌^◌,
}
use kvmulate.Prelude.Int.{ℤ, pos, negsuc}
use kvmulate.Mmio.{
  MmioDevice, get64, claims, get_device, mmio_read, mmio_write, call_read, call_write,
}
use kvmulate.Exits.{handle_mmio}
use kvmulate.Io.Parts.Keeping.{OutKeeps, InKeeps}

module _ {S : Type 0} (I : S → Type 0) where
  -- A device keeps `I` where its functions return.
  pub record DeviceKeeps (d : MmioDevice S) : Type 0 where
    pub readb : InKeeps I d.readb
    pub readw : InKeeps I d.readw
    pub readl : InKeeps I d.readl
    pub readq : InKeeps I d.readq
    pub writeb : OutKeeps I d.writeb
    pub writew : OutKeeps I d.writew
    pub writel : OutKeeps I d.writel
    pub writeq : OutKeeps I d.writeq

  abbrev pub AllKeep : List (MmioDevice S) → Type 0
  AllKeep [] = Unit {0}
  AllKeep (d ∷ ds) = DeviceKeeps d × AllKeep ds

  abbrev Found : Option (MmioDevice S) → Type 0
  Found none = Unit {0}
  Found (some d) = DeviceKeeps d

  found : (address : ℕ) (ds : List (MmioDevice S)) → AllKeep ds → Found (get_device address ds)
  unfolding get_device
  found address [] all = tt
  found address (d ∷ ds) all = elim (Bool-cases (claims d address)) [
    | inl hit ↦ rw hit all.0
    | inr miss ↦ rw miss (found address ds all.1)
  ]

  write-Kept :
      (f : Option (S → ℕ → ℕ → Outcome S)) (address val : ℕ) (s : S)
      → OutKeeps I f
      → I s
      → IfReturns (λ (q : ℤ × S). I q.1) (call_write f address val s)
  write-Kept none address val s k i = tt
  write-Kept (some f) address val s k i =
      IfReturns->>= I (λ (q : ℤ × S). I q.1) (f s address val) (λ t. ok (pos 0, t))
        (k s address val i) (λ t j. j)

  read-Kept :
      (f : Option (S → ℕ → Outcome (ℕ × S))) (address : ℕ) (put : ℕ → Cells) (s : S)
      → InKeeps I f
      → I s
      → IfReturns (λ (q : ℤ × Cells × S). I q.2) (call_read f address put s)
  read-Kept none address put s k i = tt
  read-Kept (some f) address put s k i =
      IfReturns->>= (λ (q : ℕ × S). I q.1) (λ (q : ℤ × Cells × S). I q.2) (f s address)
        (λ q. ok (pos 0, put q.0, q.1)) (k s address i) (λ q j. j)

  -- Of any address and length.
  pub mmio_write-Kept :
      (ds : List (MmioDevice S)) (address len : ℕ) (bytes : Cells) (s : S)
      → AllKeep ds
      → I s
      → IfReturns (λ (q : ℤ × S). I q.1) (mmio_write ds address len bytes s)
  unfolding mmio_write
  mmio_write-Kept ds address len bytes s all i =
      after (get_device address ds) refl (found address ds all)
    where
      after :
          (o : Option (MmioDevice S))
          → get_device address ds ≡ o
          → Found o
          → IfReturns (λ (q : ℤ × S). I q.1) (mmio_write ds address len bytes s)
      after none e k = rw (e, mmio_write) i
      after (some d) e k = ground (
        arith,
        e,
        write-Kept d.writeb address (bytes 0) s k.writeb i,
        write-Kept d.writew address (get16 bytes 0) s k.writew i,
        write-Kept d.writel address (get32 bytes 0) s k.writel i,
        write-Kept d.writeq address (get64 bytes 0) s k.writeq i,
      )

  pub mmio_read-Kept :
      (ds : List (MmioDevice S)) (address len : ℕ) (bytes : Cells) (s : S)
      → AllKeep ds
      → I s
      → IfReturns (λ (q : ℤ × Cells × S). I q.2) (mmio_read ds address len bytes s)
  unfolding mmio_read
  mmio_read-Kept ds address len bytes s all i =
      after (get_device address ds) refl (found address ds all)
    where
      after :
          (o : Option (MmioDevice S))
          → get_device address ds ≡ o
          → Found o
          → IfReturns (λ (q : ℤ × Cells × S). I q.2) (mmio_read ds address len bytes s)
      after none e k = rw (e, mmio_read) i
      after (some d) e k = ground (
        arith,
        e,
        read-Kept d.readb address (λ v. update bytes 0 v) s k.readb i,
        read-Kept d.readw address (λ v. put16 bytes 0 v) s k.readw i,
        read-Kept d.readl address (λ v. put32 bytes 0 v) s k.readl i,
        read-Kept d.readq address (λ v. put32 bytes 0 (v % 2 ^ 32)) s k.readq i,
      )

  -- The exit.
  pub handle_mmio-Kept :
      (ds : List (MmioDevice S)) (is_write : Bool) (address len : ℕ) (bytes : Cells) (s : S)
      → AllKeep ds
      → I s
      → IfReturns (λ (q : Cells × S). I q.1) (handle_mmio ds is_write address len bytes s)
  handle_mmio-Kept ds true address len bytes s all i =
      IfReturns->>= (λ (q : ℤ × S). I q.1) (λ (q : Cells × S). I q.1)
        (mmio_write ds address len bytes s) _ (mmio_write-Kept ds address len bytes s all i)
        (λ q j. result q.0 q.1 j)
    where
      result :
          (r : ℤ) (t : S)
          → I t
          → IfReturns (λ (q : Cells × S). I q.1) (elim r [ pos zero ↦ ok (bytes, t) | _ ↦ abort ])
      result (pos zero) t j = j
      result (pos (suc n)) t j = tt
      result (negsuc n) t j = tt
  handle_mmio-Kept ds false address len bytes s all i =
      IfReturns->>= (λ (q : ℤ × Cells × S). I q.2) (λ (q : Cells × S). I q.1)
        (mmio_read ds address len bytes s) _ (mmio_read-Kept ds address len bytes s all i)
        (λ q j. result q.0 q.1 q.2 j)
    where
      result :
          (r : ℤ) (data_bytes : Cells) (t : S)
          → I t
          → IfReturns
              (λ (q : Cells × S). I q.1)
              (elim r [ pos zero ↦ ok (data_bytes, t) | _ ↦ abort ])
      result (pos zero) b t j = j
      result (pos (suc n)) b t j = tt
      result (negsuc n) b t j = tt
