-- ===== src/Io.antt =====
-- io.c: the table of port handlers, and the dispatch of port reads and writes to them.
-- A handler's functions take the state `S` of the devices; `none` is a NULL function pointer.
pub mod Lookup
pub mod Dispatch
pub mod Parts
use kvmulate.Prelude.{
  ℕ, zero, suc, ◌+◌, ◌-◌, ◌%◌, bit_and, Bool, true, false, List, [], ◌∷◌, ◌++◌, Option, none, some,
  Outcome, ok, abort, fault, ltb, ◌==◌, if◌then◌else◌, length,
}

pub record IoHandler (S : Type 0) : Type 0 where
  pub base : ℕ
  pub mask : ℕ
  pub inb : Option (S → ℕ → Outcome (ℕ × S))
  pub inw : Option (S → ℕ → Outcome (ℕ × S))
  pub inl : Option (S → ℕ → Outcome (ℕ × S))
  pub outb : Option (S → ℕ → ℕ → Outcome S)
  pub outw : Option (S → ℕ → ℕ → Outcome S)
  pub outl : Option (S → ℕ → ℕ → Outcome S)

abbrev pub max_handlers : ℕ
max_handlers = 128

module _ {S : Type 0} where
  -- (address & mask) == base
  abbrev pub claims : IoHandler S → ℕ → Bool
  claims h address = bit_and address h.mask == h.base

  -- The first of iohandler[0 .. iohandlers - 1] that claims the address.
  unfoldable pub lookup_handler : ℕ → List (IoHandler S) → Option (IoHandler S)
  lookup_handler address [] = none
  lookup_handler address (h ∷ hs) = if claims h address then some h else lookup_handler address hs

  -- The result is the handle, the place of the handler in the table, or NULL.
  unfoldable pub io_register_handler :
      IoHandler S → List (IoHandler S) → Option ℕ × List (IoHandler S)
  io_register_handler h hs =
      if ltb (length hs) (max_handlers - 1) then (some (length hs), hs ++ h ∷ []) else (none, hs)

  unfoldable pub replace : ℕ → IoHandler S → List (IoHandler S) → List (IoHandler S)
  replace i new [] = []
  replace zero new (h ∷ hs) = new ∷ hs
  replace (suc i) new (h ∷ hs) = h ∷ replace i new hs

  -- `*hdl = pNewHandler`, with no check of the handle.
  unfoldable pub io_remap_handler :
      Option ℕ → IoHandler S → List (IoHandler S) → Outcome (List (IoHandler S))
  io_remap_handler none new hs = fault
  io_remap_handler (some i) new hs = ok (replace i new hs)

  -- port - handler->base, as the uint16 that the handler is given.
  abbrev pub offset : ℕ → IoHandler S → ℕ
  offset port h = (port + 65536 - h.base) % 65536

  -- A write to a claimed port asserts that its width has a function; a read calls it unchecked.
  abbrev pub call_out : Option (S → ℕ → ℕ → Outcome S) → S → ℕ → ℕ → Outcome S
  call_out none s port val = abort
  call_out (some f) s port val = f s port val

  abbrev pub call_in : Option (S → ℕ → Outcome (ℕ × S)) → S → ℕ → Outcome (ℕ × S)
  call_in none s port = fault
  call_in (some f) s port = f s port

  unfoldable pub io_outb : List (IoHandler S) → ℕ → ℕ → S → Outcome S
  io_outb hs port val s = elim (lookup_handler port hs) [
    | none ↦ ok s
    | some h ↦ call_out h.outb s (offset port h) val
  ]

  unfoldable pub io_outw : List (IoHandler S) → ℕ → ℕ → S → Outcome S
  io_outw hs port val s = elim (lookup_handler port hs) [
    | none ↦ ok s
    | some h ↦ call_out h.outw s (offset port h) val
  ]

  unfoldable pub io_outl : List (IoHandler S) → ℕ → ℕ → S → Outcome S
  io_outl hs port val s = elim (lookup_handler port hs) [
    | none ↦ ok s
    | some h ↦ call_out h.outl s (offset port h) val
  ]

  -- With no handler a byte reads as 0xFF, a word and a long as 0.
  unfoldable pub io_inb : List (IoHandler S) → ℕ → S → Outcome (ℕ × S)
  io_inb hs port s = elim (lookup_handler port hs) [
    | none ↦ ok (0xFF, s)
    | some h ↦ call_in h.inb s (offset port h)
  ]

  unfoldable pub io_inw : List (IoHandler S) → ℕ → S → Outcome (ℕ × S)
  io_inw hs port s = elim (lookup_handler port hs) [
    | none ↦ ok (0, s)
    | some h ↦ call_in h.inw s (offset port h)
  ]

  unfoldable pub io_inl : List (IoHandler S) → ℕ → S → Outcome (ℕ × S)
  io_inl hs port s = elim (lookup_handler port hs) [
    | none ↦ ok (0, s)
    | some h ↦ call_in h.inl s (offset port h)
  ]
