-- ===== src/Io/Parts.antt =====
-- io.c: a device's handler that works on its own part of a larger state. What the guest reads, and what
-- becomes of the part, is what the device alone would do.
pub mod Exits
pub mod Keeping
use kvmulate.Prelude.{
  ℕ, ◌≡◌, refl, List, [], ◌∷◌, ◌++◌, Option, none, some, Outcome, ok, abort, fault, ◌>>=◌, ap, ◌∙◌,
}
use kvmulate.Prelude.Parts.{Part, Keeps}
use kvmulate.Io.Lookup.{lookup_handler_iff, Resolves-claims}
use kvmulate.Io.{
  IoHandler, lookup_handler, offset, io_outb, io_outw, io_outl, io_inb, io_inw, io_inl, call_out,
  call_in,
}

-- A handler of a part, as one of the whole state.
module _ {T S : Type 0} (part : Part T S) where
  abbrev pub in_part : Option (S → ℕ → Outcome (ℕ × S)) → Option (T → ℕ → Outcome (ℕ × T))
  in_part none = none
  in_part (some f) = some (λ t port. f (part.get t) port >>= λ q. ok (q.0, part.set q.1 t))

  abbrev pub out_part : Option (S → ℕ → ℕ → Outcome S) → Option (T → ℕ → ℕ → Outcome T)
  out_part none = none
  out_part (some f) = some (λ t port val. f (part.get t) port val >>= λ s. ok (part.set s t))

  abbrev pub handler_part : IoHandler S → IoHandler T
  handler_part h = record {
    base = h.base;
    mask = h.mask;
    inb = in_part h.inb;
    inw = in_part h.inw;
    inl = in_part h.inl;
    outb = out_part h.outb;
    outw = out_part h.outw;
    outl = out_part h.outl;
  }

-- A guest's accesses, and the values that it reads, in order.
pub data Access : Type 0 where
  outb outw outl : ℕ → ℕ → Access
  inb inw inl : ℕ → Access

abbrev pub port_of : Access → ℕ
port_of (outb port val) = port
port_of (outw port val) = port
port_of (outl port val) = port
port_of (inb port) = port
port_of (inw port) = port
port_of (inl port) = port

module _ {S : Type 0} where
  abbrev pub written : Outcome S → Outcome (List ℕ × S)
  written m = m >>= λ s. ok ([], s)

  abbrev pub read : Outcome (ℕ × S) → Outcome (List ℕ × S)
  read m = m >>= λ q. ok (q.0 ∷ [], q.1)

module _ {S : Type 0} (hs : List (IoHandler S)) where
  unfoldable pub perform : Access → S → Outcome (List ℕ × S)
  perform (outb port val) s = written (io_outb hs port val s)
  perform (outw port val) s = written (io_outw hs port val s)
  perform (outl port val) s = written (io_outl hs port val s)
  perform (inb port) s = read (io_inb hs port s)
  perform (inw port) s = read (io_inw hs port s)
  perform (inl port) s = read (io_inl hs port s)

  unfoldable pub performs : List Access → S → Outcome (List ℕ × S)
  performs [] s = ok ([], s)
  performs (a ∷ os) s = perform a s >>= λ q. performs os q.1 >>= λ r. ok (q.0 ++ r.0, r.1)

-- What the guest sees of a part: the values, and the part.
module _ {T S : Type 0} (part : Part T S) where
  abbrev pub view : Outcome (List ℕ × T) → Outcome (List ℕ × S)
  view m = m >>= λ q. ok (q.0, part.get q.1)

module _ {T S : Type 0} (part : Part T S) (keeps : Keeps part) where
  view-written :
      (m : Outcome S) (t : T) → view part (written (m >>= λ s. ok (part.set s t))) ≡ written m
  view-written (ok s) t = ap (λ (x : S). ok ([], x)) (keeps s t)
  view-written abort t = refl
  view-written fault t = refl

  view-read :
      (m : Outcome (ℕ × S)) (t : T)
      → view part (read (m >>= λ q. ok (q.0, part.set q.1 t))) ≡ read m
  view-read (ok q) t = ap (λ (x : S). ok (q.0 ∷ [], x)) (keeps q.1 t)
  view-read abort t = refl
  view-read fault t = refl

  view-call_out :
      (f : Option (S → ℕ → ℕ → Outcome S)) (t : T) (port val : ℕ)
      → view part (written (call_out (out_part part f) t port val))
        ≡ written (call_out f (part.get t) port val)
  view-call_out none t port val = refl
  view-call_out (some f) t port val = view-written (f (part.get t) port val) t

  view-call_in :
      (f : Option (S → ℕ → Outcome (ℕ × S))) (t : T) (port : ℕ)
      → view part (read (call_in (in_part part f) t port)) ≡ read (call_in f (part.get t) port)
  view-call_in none t port = refl
  view-call_in (some f) t port = view-read (f (part.get t) port) t

  module _ (h : IoHandler S) (hs : List (IoHandler T)) where
    pub alone :
        (port : ℕ)
        → lookup_handler port hs ≡ some (handler_part part h)
        → lookup_handler port (h ∷ []) ≡ some h
    unfolding lookup_handler
    alone port found =
        rw (Resolves-claims ((lookup_handler_iff port (handler_part part h) hs).0 found))

    perform-part :
        (a : Access) (t : T)
        → lookup_handler (port_of a) hs ≡ some (handler_part part h)
        → view part (perform hs a t) ≡ perform (h ∷ []) a (part.get t)
    unfolding perform io_outb io_outw io_outl io_inb io_inw io_inl
    perform-part (outb port val) t e =
        rw (e, alone port e, io_outb) (view-call_out h.outb t (offset port h) val)
    perform-part (outw port val) t e =
        rw (e, alone port e, io_outw) (view-call_out h.outw t (offset port h) val)
    perform-part (outl port val) t e =
        rw (e, alone port e, io_outl) (view-call_out h.outl t (offset port h) val)
    perform-part (inb port) t e =
        rw (e, alone port e, io_inb) (view-call_in h.inb t (offset port h))
    perform-part (inw port) t e =
        rw (e, alone port e, io_inw) (view-call_in h.inw t (offset port h))
    perform-part (inl port) t e =
        rw (e, alone port e, io_inl) (view-call_in h.inl t (offset port h))

    -- All the accesses go to the part's handler.
    abbrev pub AllReach : List Access → Type 0
    AllReach [] = Unit {0}
    AllReach (a ∷ os) = (lookup_handler (port_of a) hs ≡ some (handler_part part h)) × AllReach os

    performs-bind :
        (os : List Access) (m : Outcome (List ℕ × T))
        → ((t : T) → view part (performs hs os t) ≡ performs (h ∷ []) os (part.get t))
        → view part (m >>= λ q. performs hs os q.1 >>= λ r. ok (q.0 ++ r.0, r.1))
          ≡ (view part m >>= λ q. performs (h ∷ []) os q.1 >>= λ r. ok (q.0 ++ r.0, r.1))
    performs-bind os (ok q) rest =
        view-append q.0 (performs hs os q.1)
        ∙ ap (λ (m : Outcome (List ℕ × S)). m >>= λ r. ok (q.0 ++ r.0, r.1)) (rest q.1)
      where
        view-append :
            (vs : List ℕ) (m : Outcome (List ℕ × T))
            → view part (m >>= λ r. ok (vs ++ r.0, r.1))
              ≡ (view part m >>= λ r. ok (vs ++ r.0, r.1))
        view-append vs (ok r) = refl
        view-append vs abort = refl
        view-append vs fault = refl
    performs-bind os abort rest = refl
    performs-bind os fault rest = refl

    -- A machine in which a device with a state of its own is a part: accesses that all reach the
    -- device's handler read what they would read from the device alone, and leave in the part the
    -- state that the device alone would be left in; where the one aborts or faults, so does the
    -- other.
    pub performs-part :
        (os : List Access) (t : T)
        → AllReach os
        → view part (performs hs os t) ≡ performs (h ∷ []) os (part.get t)
    unfolding performs
    performs-part [] t reach = refl
    performs-part (a ∷ os) t reach =
        performs-bind os (perform hs a t) (λ u. performs-part os u reach.1)
        ∙ ap
            (λ (m : Outcome (List ℕ × S)).
              m >>= λ q. performs (h ∷ []) os q.1 >>= λ r. ok (q.0 ++ r.0, r.1))
            (perform-part a t reach.0)
