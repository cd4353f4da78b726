-- ===== src/Io/Dispatch.antt =====
-- What port reads and writes do with a claimed port, a free port and a missing function.
use kvmulate.Prelude.{ℕ, ◌+◌, ◌<◌, ◌≡◌, List, none, some, Option, ok, abort, fault, arith}
use kvmulate.Io.{
  IoHandler, lookup_handler, offset, io_inb, io_inw, io_inl, io_outb, io_outw, io_outl,
}
use kvmulate.Io.Lookup.{Resolves, lookup_handler_iff, offset_exact}

-- A function pointer's call, with what happens if it is NULL.
abbrev pub call_or {ℓ} : {A F : Type ℓ} → A → (F → A) → Option F → A
call_or d k none = d
call_or d k (some f) = k f

module _ {S : Type 0} where
  -- A port that no handler claims: writes of every width leave the devices alone, a byte reads as
  -- 0xFF and wider reads as 0.
  pub unclaimed_port :
      (hs : List (IoHandler S)) (port val : ℕ) (s : S)
      → lookup_handler port hs ≡ none
      → (io_outb hs port val s ≡ ok s)
        × (io_outw hs port val s ≡ ok s)
        × (io_outl hs port val s ≡ ok s)
        × (io_inb hs port s ≡ ok (0xFF, s))
        × (io_inw hs port s ≡ ok (0, s))
        × (io_inl hs port s ≡ ok (0, s))
  unfolding io_outb io_outw io_outl io_inb io_inw io_inl
  unclaimed_port hs port val s free = ground arith

  -- A port of 16 bits, `r` above the base of the first handler that claims it: every access calls
  -- that handler's function for its width with `r` and the value. Where the handler has no such
  -- function, a write aborts by its assertion and a read calls through NULL.
  pub claimed_port :
      (hs : List (IoHandler S)) (h : IoHandler S) (port r val : ℕ) (s : S)
      → Resolves port h hs
      → port < 65536
      → h.base + r ≡ port
      → (io_outb hs port val s ≡ call_or abort (λ f. f s r val) h.outb)
        × (io_outw hs port val s ≡ call_or abort (λ f. f s r val) h.outw)
        × (io_outl hs port val s ≡ call_or abort (λ f. f s r val) h.outl)
        × (io_inb hs port s ≡ call_or fault (λ f. f s r) h.inb)
        × (io_inw hs port s ≡ call_or fault (λ f. f s r) h.inw)
        × (io_inl hs port s ≡ call_or fault (λ f. f s r) h.inl)
  unfolding io_outb io_outw io_outl io_inb io_inw io_inl
  claimed_port hs h port r val s res small at =
      let found : lookup_handler port hs ≡ some h = (lookup_handler_iff port h hs).1 res in
      let same : offset port h ≡ r = omega (arith, offset_exact port h hs small found) in
      ground (arith, found, same)
