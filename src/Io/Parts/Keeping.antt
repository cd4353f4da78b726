-- ===== src/Io/Parts/Keeping.antt =====
-- io.c: what all functions of a device keep, the accesses of a guest to its handler keep.
use kvmulate.Prelude.{
  ℕ, ◌≡◌, List, Option, none, some, Outcome, ok, abort, fault, IfReturns, IfReturns->>=, inl,
}
use kvmulate.Io.{
  IoHandler, lookup_handler, offset, io_outb, io_outw, io_outl, io_inb, io_inw, io_inl, call_out,
  call_in,
}
use kvmulate.Prelude.Parts.{Part}
use kvmulate.Io.Parts.{
  handler_part, in_part, out_part, port_of, Access, outb, outw, outl, inb, inw, inl, perform,
  written, read,
}

module _ {S : Type 0} (I : S → Type 0) where
  abbrev pub OutKeeps : Option (S → ℕ → ℕ → Outcome S) → Type 0
  OutKeeps none = Unit {0}
  OutKeeps (some f) = (s : S) (port val : ℕ) → I s → IfReturns I (f s port val)

  abbrev pub InKeeps : Option (S → ℕ → Outcome (ℕ × S)) → Type 0
  InKeeps none = Unit {0}
  InKeeps (some f) = (s : S) (port : ℕ) → I s → IfReturns (λ q. I q.1) (f s port)

  -- A handler keeps `I` where its functions return.
  pub record HandlerKeeps (h : IoHandler S) : Type 0 where
    pub outb : OutKeeps h.outb
    pub outw : OutKeeps h.outw
    pub outl : OutKeeps h.outl
    pub inb : InKeeps h.inb
    pub inw : InKeeps h.inw
    pub inl : InKeeps h.inl

  -- After an access.
  abbrev pub Kept : Outcome (List ℕ × S) → Type 0
  Kept = IfReturns (λ (q : List ℕ × S). I q.1)

  call_out-Kept :
      (f : Option (S → ℕ → ℕ → Outcome S)) (s : S) (port val : ℕ)
      → OutKeeps f
      → I s
      → Kept (written (call_out f s port val))
  call_out-Kept none s port val k i = tt
  call_out-Kept (some f) s port val k i = go (f s port val) (k s port val i)
    where
      go : (m : Outcome S) → IfReturns I m → Kept (written m)
      go (ok t) h = h
      go abort h = tt
      go fault h = tt

  call_in-Kept :
      (f : Option (S → ℕ → Outcome (ℕ × S))) (s : S) (port : ℕ)
      → InKeeps f
      → I s
      → Kept (read (call_in f s port))
  call_in-Kept none s port k i = tt
  call_in-Kept (some f) s port k i = go (f s port) (k s port i)
    where
      go : (m : Outcome (ℕ × S)) → IfReturns (λ q. I q.1) m → Kept (read m)
      go (ok q) h = h
      go abort h = tt
      go fault h = tt

  abbrev pub FoundKeeps : Option (IoHandler S) → Type 0
  FoundKeeps none = Unit {0}
  FoundKeeps (some h) = HandlerKeeps h

  pub perform-Kept :
      (hs : List (IoHandler S)) (a : Access) (s : S) (o : Option (IoHandler S))
      → lookup_handler (port_of a) hs ≡ o
      → FoundKeeps o
      → I s
      → Kept (perform hs a s)
  unfolding perform io_outb io_outw io_outl io_inb io_inw io_inl
  perform-Kept hs (outb port val) s none e k i = rw (e, io_outb) i
  perform-Kept hs (outw port val) s none e k i = rw (e, io_outw) i
  perform-Kept hs (outl port val) s none e k i = rw (e, io_outl) i
  perform-Kept hs (inb port) s none e k i = rw (e, io_inb) i
  perform-Kept hs (inw port) s none e k i = rw (e, io_inw) i
  perform-Kept hs (inl port) s none e k i = rw (e, io_inl) i
  perform-Kept hs (outb port val) s (some h) e k i =
      rw (e, io_outb) (call_out-Kept h.outb s (offset port h) val k.outb i)
  perform-Kept hs (outw port val) s (some h) e k i =
      rw (e, io_outw) (call_out-Kept h.outw s (offset port h) val k.outw i)
  perform-Kept hs (outl port val) s (some h) e k i =
      rw (e, io_outl) (call_out-Kept h.outl s (offset port h) val k.outl i)
  perform-Kept hs (inb port) s (some h) e k i =
      rw (e, io_inb) (call_in-Kept h.inb s (offset port h) k.inb i)
  perform-Kept hs (inw port) s (some h) e k i =
      rw (e, io_inw) (call_in-Kept h.inw s (offset port h) k.inw i)
  perform-Kept hs (inl port) s (some h) e k i =
      rw (e, io_inl) (call_in-Kept h.inl s (offset port h) k.inl i)

-- A handler of a part keeps an invariant `J` of the whole state of which `I` is what the part needs.
module _ {T S : Type 0} (part : Part T S) (I : S → Type 0) (J : T → Type 0)
    (down : (t : T) → J t → I (part.get t))
    (up : (t : T) (s : S) → J t → I s → J (part.set s t)) where
  pub in_part-InKeeps :
      (f : Option (S → ℕ → Outcome (ℕ × S))) → InKeeps I f → InKeeps J (in_part part f)
  in_part-InKeeps none k = tt
  in_part-InKeeps (some f) k = λ t port j.
      IfReturns->>= (λ (q : ℕ × S). I q.1) (λ (q : ℕ × T). J q.1) (f (part.get t) port)
        (λ q. ok (q.0, part.set q.1 t)) (k (part.get t) port (down t j)) (λ q i. up t q.1 j i)

  pub out_part-OutKeeps :
      (f : Option (S → ℕ → ℕ → Outcome S)) → OutKeeps I f → OutKeeps J (out_part part f)
  out_part-OutKeeps none k = tt
  out_part-OutKeeps (some f) k = λ t port val j.
      IfReturns->>= I J (f (part.get t) port val) (λ s. ok (part.set s t))
        (k (part.get t) port val (down t j)) (λ s i. up t s j i)

  pub handler_part-HandlerKeeps :
      (h : IoHandler S) → HandlerKeeps I h → HandlerKeeps J (handler_part part h)
  handler_part-HandlerKeeps h k = record {
    outb = out_part-OutKeeps h.outb k.outb;
    outw = out_part-OutKeeps h.outw k.outw;
    outl = out_part-OutKeeps h.outl k.outl;
    inb = in_part-InKeeps h.inb k.inb;
    inw = in_part-InKeeps h.inw k.inw;
    inl = in_part-InKeeps h.inl k.inl;
  }

-- A part about which nothing is to be kept.
module _ {S : Type 0} where
  pub any_out : (f : Option (S → ℕ → ℕ → Outcome S)) → OutKeeps (λ s. Unit {0}) f
  any_out none = tt
  any_out (some f) = λ s port val i. go (f s port val)
    where
      go : (m : Outcome S) → IfReturns (λ s. Unit {0}) m
      go (ok s) = tt
      go abort = tt
      go fault = tt

  pub any_in : (f : Option (S → ℕ → Outcome (ℕ × S))) → InKeeps (λ s. Unit {0}) f
  any_in none = tt
  any_in (some f) = λ s port i. go (f s port)
    where
      go : (m : Outcome (ℕ × S)) → IfReturns (λ q. Unit {0}) m
      go (ok q) = tt
      go abort = tt
      go fault = tt

  pub any_handler : (h : IoHandler S) → HandlerKeeps (λ s. Unit {0}) h
  any_handler h = record {
    outb = any_out h.outb;
    outw = any_out h.outw;
    outl = any_out h.outl;
    inb = any_in h.inb;
    inw = any_in h.inw;
    inl = any_in h.inl;
  }
