-- ===== src/Io/Lookup.antt =====
-- Which handler a port resolves to, and how registering and remapping change that.
use kvmulate.Prelude.{
  ℕ, ◌+◌, ◌≤◌, ◌<◌, ◌≡◌, refl, ap, ◌↔◌, ◌⊎◌, inl, inr, true, false, List, [], ◌∷◌, ◌++◌, none, some,
  ok, fault, arith, bit_and, ==_iff, Bool-cases, length, if◌then◌else◌, ltb,
}
use mathlib.Core.Path.{subst}
use kvmulate.Prelude.Bits.{bit_and-le}
use kvmulate.Io.{
  IoHandler, claims, lookup_handler, io_register_handler, io_remap_handler, replace, offset,
}

ltb-true : (n : ℕ) → ltb n 127 ≡ true → n < 127
ltb-true n h = ground arith

ltb-false : (n : ℕ) → ltb n 127 ≡ false → 127 ≤ n
ltb-false n h = ground arith

module _ {S : Type 0} where
  -- `h` claims the address, and nothing that was registered before it does.
  pub data Resolves (address : ℕ) (h : IoHandler S) : List (IoHandler S) → Type 0 where
    here : {hs : List (IoHandler S)} → claims h address ≡ true → Resolves address h (h ∷ hs)
    there :
        {g : IoHandler S} {hs : List (IoHandler S)}
        → claims g address ≡ false
        → Resolves address h hs
        → Resolves address h (g ∷ hs)

  lookup_finds :
      (address : ℕ) (h : IoHandler S) (hs : List (IoHandler S))
      → Resolves address h hs
      → lookup_handler address hs ≡ some h
  unfolding lookup_handler
  lookup_finds address h _ (here e) = rw e
  lookup_finds address h (g ∷ hs) (there e r) = rw e (lookup_finds address h hs r)

  head_found :
      (address : ℕ) (g h : IoHandler S) (hs : List (IoHandler S))
      → claims g address ≡ true
      → some g ≡ some h
      → Resolves address h (g ∷ hs)
  head_found address g h hs hit e =
      let same : g ≡ h = cc in subst (λ k. Resolves address k (g ∷ hs)) same (here hit)

  lookup_found :
      (address : ℕ) (h : IoHandler S) (hs : List (IoHandler S))
      → lookup_handler address hs ≡ some h
      → Resolves address h hs
  unfolding lookup_handler
  lookup_found address h [] e = cc
  lookup_found address h (g ∷ hs) e = elim (Bool-cases (claims g address)) [
    | inl hit ↦ head_found address g h hs hit (rw hit at e)
    | inr miss ↦ there miss (lookup_found address h hs (rw miss at e))
  ]

  -- The table is searched in the order of registration: a port resolves to a handler exactly when
  -- that handler claims it and no handler registered earlier does.
  pub lookup_handler_iff :
      (address : ℕ) (h : IoHandler S) (hs : List (IoHandler S))
      → (lookup_handler address hs ≡ some h) ↔ Resolves address h hs
  lookup_handler_iff address h hs = (lookup_found address h hs, lookup_finds address h hs)

  pub Resolves-claims :
      {address : ℕ} {h : IoHandler S} {hs : List (IoHandler S)}
      → Resolves address h hs
      → claims h address ≡ true
  Resolves-claims (here e) = e
  Resolves-claims (there e r) = Resolves-claims r

  -- A handler's offset and its base add up to the port, and the subtraction does not wrap.
  pub offset_exact :
      (port : ℕ) (h : IoHandler S) (hs : List (IoHandler S))
      → port < 65536
      → lookup_handler port hs ≡ some h
      → h.base + offset port h ≡ port
  offset_exact port h hs small e = ground (
    arith,
    ==_iff (bit_and port h.mask) h.base,
    Resolves-claims (lookup_found port h hs e),
    bit_and-le port h.mask,
  )

  lookup-append :
      (address : ℕ) (h : IoHandler S) (hs : List (IoHandler S))
      → lookup_handler address (hs ++ h ∷ []) ≡ elim (lookup_handler address hs) [
        | some g ↦ some g
        | none ↦ if claims h address then some h else none
      ]
  unfolding lookup_handler
  lookup-append address h [] = refl
  lookup-append address h (g ∷ hs) = elim (Bool-cases (claims g address)) [
    | inl hit ↦ rw hit
    | inr miss ↦ rw miss (lookup-append address h hs)
  ]

  -- Registering a handler, while the table has fewer than 127, gives it the next place, and no port
  -- that was claimed before changes its handler; the new one gets the ports that it claims of
  -- those that were free. In a full table nothing changes and the handle is NULL.
  pub lookup-io_register_handler :
      (address : ℕ) (h : IoHandler S) (hs : List (IoHandler S))
      → ((length hs < 127)
            × ((io_register_handler h hs).0 ≡ some (length hs))
            × (lookup_handler address (io_register_handler h hs).1
                ≡ elim (lookup_handler address hs) [
                  | some g ↦ some g
                  | none ↦ if claims h address then some h else none
                ])
          ⊎ (127 ≤ length hs) × (io_register_handler h hs ≡ (none, hs)))
  unfolding io_register_handler
  lookup-io_register_handler address h hs = elim (Bool-cases (ltb (length hs) 127)) [
    | inl room ↦
        inl
          (omega (arith, ltb-true (length hs) room), rw room, rw room (lookup-append address h hs))
    | inr full ↦ inr (omega (arith, ltb-false (length hs) full), rw full)
  ]

  replace-append :
      (h new : IoHandler S) (hs : List (IoHandler S))
      → replace (length hs) new (hs ++ h ∷ []) ≡ hs ++ new ∷ []
  unfolding replace
  replace-append h new [] = refl
  replace-append h new (g ∷ hs) = ap (◌∷◌ g) (replace-append h new hs)

  -- Remapping the handle that a registration returned leaves the table as if the new handler had
  -- been registered in the first place; where registration failed it writes through NULL.
  pub io_remap-io_register :
      (h new : IoHandler S) (hs : List (IoHandler S))
      → let (handle, table) = io_register_handler h hs in
        io_remap_handler handle new table
        ≡ (if ltb (length hs) 127 then ok (io_register_handler new hs).1 else fault)
  unfolding io_register_handler io_remap_handler
  io_remap-io_register h new hs = elim (Bool-cases (ltb (length hs) 127)) [
    | inl room ↦ rw room (ap ok (replace-append h new hs))
    | inr full ↦ rw full
  ]
