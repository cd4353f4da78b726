-- ===== src/Pci/Devices.antt =====
-- devices/x86/pci.c: the table of devices, and the device that an address selects.
use kvmulate.Prelude.{
  ℕ, zero, suc, ◌+◌, ◌/◌, ◌%◌, ◌^◌, ◌<◌, ◌≤◌, ◌≡◌, refl, ◌∙◌, ◌&&◌, List, [], ◌∷◌, ◌++◌, Option,
  true, none, some, ltb, leb, ◌==◌, if◌then◌else◌, length, arith, Bool-cases, inl, inr,
}
use mathlib.Core.List.{append_assoc, append-nil}
use kvmulate.Prelude.Int.{ℤ, pos, negsuc}
use kvmulate.Pci.{
  fill_slot, PciDev, Pci, selects, search_slots, get_device, free_slot, pci_register_dev,
  x86_pci_init, write_address, max_fpb,
}

pub length-++ {ℓ} : {A : Type ℓ} (xs ys : List A) → length (xs ++ ys) ≡ length xs + length ys
length-++ [] ys = omega arith
length-++ (x ∷ xs) ys = omega (arith, length-++ xs ys)

module _ {S : Type 0} where
  -- The devices in the order of their registration, each with the address it was assigned.
  abbrev pub numbered : ℕ → PciDev S → PciDev S
  numbered k d = record d { bus = 0; dev = k; fn = 0 }

  unfoldable pub listed : ℕ → List (PciDev S) → ℕ → Option (PciDev S)
  listed k [] j = none
  listed k (d ∷ ds) zero = some (numbered k d)
  listed k (d ∷ ds) (suc j) = listed (suc k) ds j

  pub register_all : List (PciDev S) → Pci S → Pci S
  register_all [] p = p
  register_all (d ∷ ds) p = register_all ds (pci_register_dev d p).1

  record IsTable (ds : List (PciDev S)) (p : Pci S) : Type 0 where
    devs : p.devs ≡ length ds
    slots : (j : ℕ) → p.slots j ≡ listed 0 ds j

  listed-none : (k : ℕ) (ds : List (PciDev S)) (j : ℕ) → length ds ≤ j → listed k ds j ≡ none
  unfolding listed
  listed-none k [] j h = refl
  listed-none k (d ∷ ds) zero h = absurd (omega arith)
  listed-none k (d ∷ ds) (suc j) h = listed-none (suc k) ds j (omega arith)

  listed-some :
      (k : ℕ) (ds : List (PciDev S)) (j : ℕ)
      → j < length ds
      → (d : PciDev S) × (listed k ds j ≡ some d) × (d.bus ≡ 0) × (d.dev ≡ k + j) × (d.fn ≡ 0)
  unfolding listed
  listed-some k [] j h = absurd (omega arith)
  listed-some k (d ∷ ds) zero h = (numbered k d, refl, refl, omega arith, refl)
  listed-some k (d ∷ ds) (suc j) h =
      let (e, at, bus, dev, fn) = listed-some (suc k) ds j (omega arith) in
      (e, at, bus, omega (arith, dev), fn)

  listed-++ :
      (k : ℕ) (ds : List (PciDev S)) (d : PciDev S) (j : ℕ)
      → listed k (ds ++ d ∷ []) j
        ≡ (if j == length ds then some (numbered (k + length ds) d) else listed k ds j)
  unfolding listed
  listed-++ k [] d zero = ground arith
  listed-++ k [] d (suc j) = ground arith
  listed-++ k (e ∷ ds) d zero = ground arith
  listed-++ k (e ∷ ds) d (suc j) = ground (arith, listed-++ (suc k) ds d j)

  free_slot-listed :
      (n i : ℕ) (ds : List (PciDev S)) (p : Pci S)
      → IsTable ds p
      → i ≤ length ds
      → length ds < i + n
      → free_slot n i p ≡ some (length ds)
  unfolding free_slot
  free_slot-listed zero i ds p t low high = absurd (omega arith)
  free_slot-listed (suc n) i ds p t low high = elim (Bool-cases (ltb i (length ds))) [
    | inl used ↦
        let (d, at, bus, dev, fn) = listed-some 0 ds i (ground arith) in
        ground
          (arith, t.slots i, at, free_slot-listed n (i + 1) ds p t (ground arith) (ground arith))
    | inr last ↦ ground (arith, t.slots i, listed-none 0 ds i (ground arith))
  ]

  -- Registering a device, while fewer than 256 are, gives it the next device number on bus 0.
  pci_register_dev-IsTable :
      (ds : List (PciDev S)) (d : PciDev S) (p : Pci S)
      → IsTable ds p
      → length ds < 256
      → IsTable (ds ++ d ∷ []) (pci_register_dev d p).1
  unfolding pci_register_dev
  pci_register_dev-IsTable ds d p t room =
      let found : free_slot max_fpb 0 p ≡ some (length ds) =
        free_slot-listed 256 0 ds p t (omega arith) (omega arith) in
      rw (pci_register_dev, found)
        (record {
          devs = omega (arith, t.devs, length-++ ds (d ∷ []));
          slots = λ j. ground (arith, listed-++ 0 ds d j, t.slots j, t.devs);
        })

  search_slots-listed :
      (n i : ℕ) (ds : List (PciDev S)) (p : Pci S)
      → IsTable ds p
      → p.dev < i + n
      → search_slots n i p
        ≡ (if p.bus == 0 && (p.fn == 0 && leb i p.dev) then listed 0 ds p.dev else none)
  unfolding search_slots
  search_slots-listed zero i ds p t high = ground arith
  search_slots-listed (suc n) i ds p t high = elim (Bool-cases (ltb i (length ds))) [
    | inl used ↦
        let (d, at, bus, dev, fn) = listed-some 0 ds i (ground arith) in
        ground
          (arith, t.slots i, at, bus, dev, fn, search_slots-listed n (i + 1) ds p t (ground arith))
    | inr free ↦ ground (
      arith,
      t.slots i,
      listed-none 0 ds i (ground arith),
      listed-none 0 ds p.dev,
      search_slots-listed n (i + 1) ds p t (ground arith),
    )
  ]

  register_all-IsTable :
      (es ds : List (PciDev S)) (p : Pci S)
      → IsTable es p
      → length es + length ds ≤ 256
      → IsTable (es ++ ds) (register_all ds p)
  unfolding register_all
  register_all-IsTable es [] p t room = rw (append-nil es) t
  register_all-IsTable es (d ∷ ds) p t room = rw (← append_assoc es (d ∷ []) ds) (
      register_all-IsTable (es ++ d ∷ []) ds _ (pci_register_dev-IsTable es d p t (omega arith))
        (omega (arith, length-++ es (d ∷ []))))

  start-IsTable : IsTable [] x86_pci_init
  unfolding x86_pci_init listed
  start-IsTable = record { devs = refl; slots = λ j. refl }

  -- After the initialisation and the registration of at most 256 devices, an address that the guest
  -- writes selects the device whose place in the order of registration is the address' device
  -- number, if its bus and its function are 0, and no device otherwise.
  pub get_device-register_all :
      (ds : List (PciDev S)) (val : ℕ)
      → length ds ≤ 256
      → val < 2 ^ 32
      → get_device (write_address val (register_all ds x86_pci_init)) ≡ (
          if val / 2 ^ 16 % 16 == 0 && val / 2 ^ 8 % 8 == 0
          then listed 0 ds (val / 2 ^ 11 % 32)
          else none)
  unfolding get_device write_address
  get_device-register_all ds val room small =
      let t = register_all-IsTable [] ds x86_pci_init start-IsTable (omega arith) in
      let q = write_address val (register_all ds x86_pci_init) in
      ground (
        arith,
        search_slots-listed 256 0 ds q (record { devs = t.devs; slots = t.slots }) (omega arith),
      )

  search_slots-slots :
      (n i : ℕ) (p : Pci S) (d : PciDev S)
      → search_slots n i p ≡ some d
      → (j : ℕ) × (p.slots j ≡ some d)
  unfolding search_slots
  search_slots-slots zero i p d found = ground arith
  search_slots-slots (suc n) i p d found =
      go (p.slots i) refl (λ h. search_slots-slots n (i + 1) p d h) found
    where
      go :
          (o : Option (PciDev S))
          → p.slots i ≡ o
          → (search_slots n (i + 1) p ≡ some d → (j : ℕ) × (p.slots j ≡ some d))
          → elim o [
            | none ↦ search_slots n (i + 1) p
            | some e ↦ if selects p e then some e else search_slots n (i + 1) p
          ]
            ≡ some d
          → (j : ℕ) × (p.slots j ≡ some d)
      go none at rest h = rest h
      go (some e) at rest h = elim (Bool-cases (selects p e)) [
        | inl same ↦ (i, ground arith)
        | inr other ↦ rest (ground arith)
      ]

  -- The device that is found stands in the table.
  pub get_device-slots :
      (p : Pci S) (d : PciDev S) → get_device p ≡ some d → (j : ℕ) × (p.slots j ≡ some d)
  unfolding get_device
  get_device-slots p d found = search_slots-slots 256 0 p d found

  pub first_device :
      (d : PciDev S) (j : ℕ)
      → (register_all (d ∷ []) x86_pci_init).slots j
        ≡ (if j == 0 then some (numbered 0 d) else none)
  unfolding listed
  first_device d zero =
      (register_all-IsTable [] (d ∷ []) x86_pci_init start-IsTable (omega arith)).slots 0
  first_device d (suc j) =
      (register_all-IsTable [] (d ∷ []) x86_pci_init start-IsTable (omega arith)).slots (suc j)
      ∙ ground arith

  -- What stands in the table after the registration of a list of devices is one of them, with the
  -- address that it was given.
  pub registered-slots :
      (ds : List (PciDev S)) (j : ℕ)
      → length ds ≤ 256
      → (register_all ds x86_pci_init).slots j ≡ listed 0 ds j
  registered-slots ds j room =
      (register_all-IsTable [] ds x86_pci_init start-IsTable (omega arith)).slots j

  -- Registration leaves the address register alone.
  pci_register_dev-index : (d : PciDev S) (p : Pci S) → (pci_register_dev d p).1.index ≡ p.index
  unfolding pci_register_dev
  pci_register_dev-index d p = go (free_slot max_fpb 0 p)
    where
      go :
          (o : Option ℕ)
          → (elim o as (λ _. ℤ × Pci S) [
            | none ↦ (negsuc 0, p)
            | some i ↦ (pos 0, fill_slot i d p)
          ]).1.index
            ≡ p.index
      go none = refl
      go (some i) = refl

  register_all_keeps_index :
      (ds : List (PciDev S)) (p : Pci S) → (register_all ds p).index ≡ p.index
  unfolding register_all
  register_all_keeps_index [] p = refl
  register_all_keeps_index (d ∷ ds) p =
      register_all_keeps_index ds (pci_register_dev d p).1 ∙ pci_register_dev-index d p

  pub register_all-index : (ds : List (PciDev S)) → (register_all ds x86_pci_init).index ≡ 0
  unfolding x86_pci_init
  register_all-index ds = register_all_keeps_index ds x86_pci_init

  -- A device in the first slot that is selected is the one that is found.
  search_first :
      (n i : ℕ) (p : Pci S) (d : PciDev S)
      → p.slots i ≡ some d
      → selects p d ≡ true
      → search_slots (suc n) i p ≡ some d
  unfolding search_slots
  search_first n i p d at selected = rw (search_slots, at, selected) refl

  pub get_device-first :
      (p : Pci S) (d : PciDev S) → p.slots 0 ≡ some d → selects p d ≡ true → get_device p ≡ some d
  unfolding get_device
  get_device-first p d at selected = search_first 255 0 p d at selected
