-- ===== src/Machine/Isolation.antt =====
-- devices/devices.c and io.c: an access to a port changes the state of the device that owns the port,
-- and that of no other.
use kvmulate.Prelude.{
  IfReturns, ℕ, ◌<◌, ◌≡◌, ◌≢◌, List, [], ◌∷◌, ◌++◌, Option, none, some, Outcome, ok, abort, fault,
  ◌>>=◌, Returns, map,
}
use mathlib.Core.Option
use kvmulate.Io.{
  IoHandler, lookup_handler, offset, io_outb, io_outw, io_outl, io_inb, io_inw, io_inl, call_out,
  call_in,
}
use kvmulate.Io.Parts.{
  Access, outb, outw, outl, inb, inw, inl, port_of, perform, performs, written, read,
}
use kvmulate.Machine.{Machine, port_table}
use kvmulate.Machine.Owners.{Owner, handler_of, owner, registered}
use kvmulate.Machine.Ports.{lookup-owner, of_table}
use kvmulate.Machine.Components.{Component, Same, Same-refl, Same-trans, component, component_at}
use kvmulate.Machine.Frames.{KeepsIn, KeepsOut, KeepsAll, handler_of-KeepsAll}

-- The accesses of one handler, or of none.
kept_out :
    (c : Component) (m : Machine) (f : Option (Machine → ℕ → ℕ → Outcome Machine)) (port val : ℕ)
    → KeepsOut c f
    → IfReturns (λ (q : List ℕ × Machine). Same c m q.1) (written (call_out f m port val))
kept_out c m none port val k = tt
kept_out c m (some f) port val k = go (f m port val) (k m port val)
  where
    go :
        (r : Outcome Machine)
        → IfReturns (Same c m) r
        → IfReturns (λ (q : List ℕ × Machine). Same c m q.1) (written r)
    go (ok n) h = h
    go abort h = tt
    go fault h = tt

kept_in :
    (c : Component) (m : Machine) (f : Option (Machine → ℕ → Outcome (ℕ × Machine))) (port : ℕ)
    → KeepsIn c f
    → IfReturns (λ (q : List ℕ × Machine). Same c m q.1) (read (call_in f m port))
kept_in c m none port k = tt
kept_in c m (some f) port k = go (f m port) (k m port)
  where
    go :
        (r : Outcome (ℕ × Machine))
        → IfReturns (λ (q : ℕ × Machine). Same c m q.1) r
        → IfReturns (λ (q : List ℕ × Machine). Same c m q.1) (read r)
    go (ok q) h = h
    go abort h = tt
    go fault h = tt

perform-free :
    (c : Component) (hs : List (IoHandler Machine)) (a : Access) (m : Machine)
    → lookup_handler (port_of a) hs ≡ none
    → IfReturns (λ (q : List ℕ × Machine). Same c m q.1) (perform hs a m)
unfolding perform io_outb io_outw io_outl io_inb io_inw io_inl
perform-free c hs (outb port val) m e = rw (e, io_outb) (Same-refl c m)
perform-free c hs (outw port val) m e = rw (e, io_outw) (Same-refl c m)
perform-free c hs (outl port val) m e = rw (e, io_outl) (Same-refl c m)
perform-free c hs (inb port) m e = rw (e, io_inb) (Same-refl c m)
perform-free c hs (inw port) m e = rw (e, io_inw) (Same-refl c m)
perform-free c hs (inl port) m e = rw (e, io_inl) (Same-refl c m)

perform-keeps :
    (c : Component) (hs : List (IoHandler Machine)) (h : IoHandler Machine) (a : Access)
    (m : Machine)
    → lookup_handler (port_of a) hs ≡ some h
    → KeepsAll c h
    → IfReturns (λ (q : List ℕ × Machine). Same c m q.1) (perform hs a m)
unfolding perform io_outb io_outw io_outl io_inb io_inw io_inl
perform-keeps c hs h (outb port val) m e k =
    rw (e, io_outb) (kept_out c m h.outb (offset port h) val k.outb)
perform-keeps c hs h (outw port val) m e k =
    rw (e, io_outw) (kept_out c m h.outw (offset port h) val k.outw)
perform-keeps c hs h (outl port val) m e k =
    rw (e, io_outl) (kept_out c m h.outl (offset port h) val k.outl)
perform-keeps c hs h (inb port) m e k = rw (e, io_inb) (kept_in c m h.inb (offset port h) k.inb)
perform-keeps c hs h (inw port) m e k = rw (e, io_inw) (kept_in c m h.inw (offset port h) k.inw)
perform-keeps c hs h (inl port) m e k = rw (e, io_inl) (kept_in c m h.inl (offset port h) k.inl)

keeps_at :
    (c : Component) (hs : List (IoHandler Machine)) (a : Access) (m : Machine) (o : Option Owner)
    → lookup_handler (port_of a) hs ≡ Option.map handler_of o
    → (elim o [ none ↦ none | some p ↦ component p ]) ≢ some c
    → IfReturns (λ (q : List ℕ × Machine). Same c m q.1) (perform hs a m)
keeps_at c hs a m none e other = perform-free c hs a m e
keeps_at c hs a m (some o) e other =
    perform-keeps c hs (handler_of o) a m e (handler_of-KeepsAll o c other)

-- No access of the sequence is to a port of the component.
abbrev pub NoneAt : Component → List Access → Type 0
NoneAt c [] = Unit {0}
NoneAt c (a ∷ os) = (port_of a < 65536) × (component_at (port_of a) ≢ some c) × NoneAt c os

pub performs-keeps :
    (c : Component) (os : List Access) (m : Machine)
    → NoneAt c os
    → IfReturns (λ (q : List ℕ × Machine). Same c m q.1) (performs (map handler_of registered) os m)
unfolding performs
performs-keeps c [] m h = Same-refl c m
performs-keeps c (a ∷ os) m h =
    go (perform (map handler_of registered) a m)
      (keeps_at c (map handler_of registered) a m (owner (port_of a)) (lookup-owner (port_of a) h.0)
        h.1)
      (λ n. performs-keeps c os n h.2)
  where
    append :
        (vs : List ℕ) (n : Machine) (r : Outcome (List ℕ × Machine))
        → Same c m n
        → IfReturns (λ (q : List ℕ × Machine). Same c n q.1) r
        → IfReturns (λ (q : List ℕ × Machine). Same c m q.1) (r >>= λ x. ok (vs ++ x.0, x.1))
    append vs n (ok x) e h' = Same-trans c m n x.1 e h'
    append vs n abort e h' = tt
    append vs n fault e h' = tt

    go :
        (r : Outcome (List ℕ × Machine))
        → IfReturns (λ (q : List ℕ × Machine). Same c m q.1) r
        → ((n : Machine)
            → IfReturns
                (λ (q : List ℕ × Machine). Same c n q.1)
                (performs (map handler_of registered) os n))
        → IfReturns
            (λ (q : List ℕ × Machine). Same c m q.1)
            (r >>= λ q. performs (map handler_of registered) os q.1 >>= λ x. ok (q.0 ++ x.0, x.1))
    go (ok q) e rest = append q.0 q.1 (performs (map handler_of registered) os q.1) e (rest q.1)
    go abort e rest = tt
    go fault e rest = tt

-- Accesses that are to no port of a component, and that return, leave the state of the component as
-- it was, interrupt lines apart.
pub isolation :
    (c : Component) (os : List Access) (m : Machine)
    → NoneAt c os
    → Returns
        (λ table. IfReturns (λ (q : List ℕ × Machine). Same c m q.1) (performs table os m))
        port_table
isolation c os m h =
    of_table (λ table. IfReturns (λ (q : List ℕ × Machine). Same c m q.1) (performs table os m))
      (performs-keeps c os m h)
