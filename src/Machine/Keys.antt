-- ===== src/Machine/Keys.antt =====
-- devices/x86/vga/viewer.c, devices/x86/i8042.c and io.c: a key of the host, and the guest of the whole
-- machine that reads it, whatever it does with the other devices in between.
use kvmulate.Prelude.{
  IfReturns, IfReturns-map, ℕ, ◌<◌, ◌≡◌, refl, ap, sym, Bool, List, map, some, Outcome, ok, ◌>>=◌,
  abort, fault, Returns, Returns->>=, Returns-map, arith,
}
use mathlib.Core.Path.{subst}
use kvmulate.Irq.{irq_set}
use kvmulate.Io.{IoHandler, io_inb, lookup_handler}
use kvmulate.Io.Parts.{Access, performs, handler_part}
use kvmulate.Io.Parts.Exits.{Returns-of_result, inb_result}
use kvmulate.I8042.{Regs, kbd_inb}
use kvmulate.I8042.Protocol.{read_apart}
use kvmulate.Vga.Viewer.Layout.{seen_as}
use kvmulate.Vga.Viewer.Keys.{
  SdlEvent, key_event, handle_event, scancode_of, keys, guest_key, handle_event_lem, Typed,
}
use kvmulate.Handlers.{kbd_handler}
use kvmulate.Machine.{Machine, keyboard_part, port_table}
use kvmulate.Machine.Owners.{handler_of, registered}
use kvmulate.Machine.Ports.{lookup-owner, of_table}
use kvmulate.Machine.Components.{Component, Same}
use kvmulate.Machine.Isolation.{NoneAt, performs-keeps}

-- An event of the viewer's thread, between two accesses of the guest.
abbrev pub on_event : SdlEvent → Machine → Outcome Machine
on_event e m = handle_event e (keyboard_part.get m) >>= λ r. ok (keyboard_part.set r m)

-- The byte that waits in the keyboard controller tells the guest `event`.
abbrev pub Waits : ℕ × Bool → Machine → Type 0
Waits event n =
    Returns (λ (p : ℕ × Regs). guest_key p.0 ≡ some event) (kbd_inb 0 (keyboard_part.get n))

Waits-event :
    (pressed : Bool) (k sc : ℕ) (m : Machine)
    → scancode_of k keys ≡ some sc
    → m.keyboard.status < 256
    → Returns (Waits (seen_as k, pressed)) (on_event (key_event pressed k) m)
Waits-event pressed k sc m known byte =
    let r = keyboard_part.get m in
    let typed = subst (Typed pressed k r) known (handle_event_lem pressed k r byte) in
    Returns->>=
      (λ (r' : Regs).
        (r'.calls ≡ irq_set 1 1 r.calls)
        × Returns (λ (p : ℕ × Regs). guest_key p.0 ≡ some (seen_as k, pressed)) (kbd_inb 0 r'))
      (Waits (seen_as k, pressed)) (handle_event (key_event pressed k) r)
      (λ r'. ok (keyboard_part.set r' m)) typed (λ r' h. h.1)

value_of :
    (P : ℕ → Type 0) (m : Outcome (ℕ × Regs))
    → Returns (λ p. P p.0) m
    → Returns P (m >>= λ p. ok p.0)
value_of P (ok p) h = h
value_of P abort h = h
value_of P fault h = h

of_value :
    (P : ℕ → Type 0) (m : Outcome (ℕ × Regs))
    → Returns P (m >>= λ p. ok p.0)
    → Returns (λ p. P p.0) m
of_value P (ok p) h = h
of_value P abort h = h
of_value P fault h = h

-- It waits as long as nothing changes the keyboard controller.
Waits-Same :
    (event : ℕ × Bool) (m n : Machine) → Same Component.keyboard m n → Waits event m → Waits event n
Waits-Same event m n same waits =
    let P = λ (v : ℕ). guest_key v ≡ some event in
    let r = keyboard_part.get m in
    let kept : (record r { calls = n.calls }) ≡ keyboard_part.get n =
      ap (λ (k : Regs). record k { calls = n.calls }) same in
    subst (λ (s : Regs). Returns (λ (p : ℕ × Regs). P p.0) (kbd_inb 0 s)) kept
      (of_value P (kbd_inb 0 (record r { calls = n.calls }))
        (subst (Returns P) (sym (read_apart r n.calls)) (value_of P (kbd_inb 0 r) waits)))

data_port :
    lookup_handler 0x60 (map handler_of registered) ≡ some (handler_part keyboard_part kbd_handler)
data_port = lookup-owner 0x60 (omega arith)

-- A read of port 0x60.
Waits-io_inb :
    (event : ℕ × Bool) (n : Machine)
    → Waits event n
    → Returns (λ p. guest_key p.0 ≡ some event) (io_inb (map handler_of registered) 0x60 n)
unfolding io_inb lookup_handler
Waits-io_inb event n waits =
    Returns-of_result keyboard_part (λ v. guest_key v ≡ some event)
      (io_inb (map handler_of registered) 0x60 n)
      (subst (Returns (λ (p : ℕ × Regs). guest_key p.0 ≡ some event))
        (sym (
          inb_result keyboard_part (λ s t. refl) kbd_handler (map handler_of registered) 0x60
            data_port n))
        waits)

-- A key of the table is pressed or released. However the guest then uses ports other than those of
-- the keyboard controller, if those accesses return, its next read of port 0x60 gives the byte that
-- scan code set 1 has for that key, pressed or released, except that an arrow key has the code of the
-- number pad's and F11 and F12 those of the locks for numbers and scrolling.
pub key_delivered :
    (pressed : Bool) (k sc : ℕ) (os : List Access) (m : Machine)
    → scancode_of k keys ≡ some sc
    → m.keyboard.status < 256
    → NoneAt Component.keyboard os
    → Returns
        (λ table.
          Returns
            (λ n.
              IfReturns
                (λ (q : List ℕ × Machine).
                  Returns (λ p. guest_key p.0 ≡ some (seen_as k, pressed)) (io_inb table 0x60 q.1))
                (performs table os n))
            (on_event (key_event pressed k) m))
        port_table
key_delivered pressed k sc os m known byte elsewhere =
    let reads = λ (table : List (IoHandler Machine)) (q : List ℕ × Machine).
      Returns (λ (p : ℕ × Machine). guest_key p.0 ≡ some (seen_as k, pressed))
        (io_inb table 0x60 q.1) in
    of_table
      (λ table.
        Returns (λ n. IfReturns (reads table) (performs table os n))
          (on_event (key_event pressed k) m))
      (Returns-map (Waits (seen_as k, pressed))
        (λ n.
          IfReturns (reads (map handler_of registered)) (performs (map handler_of registered) os n))
        (on_event (key_event pressed k) m) (Waits-event pressed k sc m known byte)
        (λ n waits.
          IfReturns-map (λ (q : List ℕ × Machine). Same Component.keyboard n q.1)
            (reads (map handler_of registered)) (performs (map handler_of registered) os n)
            (performs-keeps Component.keyboard os n elsewhere)
            (λ q same.
              Waits-io_inb (seen_as k, pressed) q.1
                (Waits-Same (seen_as k, pressed) n q.1 same waits))))
