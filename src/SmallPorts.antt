-- ===== src/SmallPorts.antt =====
-- devices/x86/ps2_pos.c, bios_debug.c, parallelport.c and serialport.c, and the debug and VBE ports
-- of devices/x86/vga/registers.c: handlers that keep at most a bit or a trace of what was written.
use kvmulate.Prelude.{
  ℕ, ◌*◌, ◌/◌, ◌%◌, List, [], ◌∷◌, none, some, Outcome, ok, abort, ltb, ◌==◌, if◌then◌else◌,
}
use kvmulate.Io.{IoHandler}

-- The state is A20_en. `!!state.A20_en` is 0 or 1.
pub ps2pos_inb : ℕ → ℕ → Outcome (ℕ × ℕ)
ps2pos_inb a20_en port =
    if port == 2 then ok ((if ltb 0 a20_en then 1 else 0) * 2, a20_en) else abort

pub ps2pos_outb : ℕ → ℕ → ℕ → Outcome ℕ
ps2pos_outb a20_en port val = if port == 2 then ok (val / 2 % 2) else abort

abbrev pub pos_handler : IoHandler ℕ
pos_handler = record {
  base = 0x90;
  mask = 0xFFF8;
  inb = some ps2pos_inb;
  inw = none;
  inl = none;
  outb = some ps2pos_outb;
  outw = none;
  outl = none;
}

-- The state is what putchar was called with, the newest first.
abbrev pub biosdebug_inb : List ℕ → ℕ → Outcome (ℕ × List ℕ)
biosdebug_inb printed port = abort

abbrev pub biosdebug_outb : List ℕ → ℕ → ℕ → Outcome (List ℕ)
biosdebug_outb printed port val = ok (val ∷ printed)

abbrev pub biosdebug_handler : IoHandler (List ℕ)
biosdebug_handler = record {
  base = 0x402;
  mask = 0xFFFF;
  inb = some biosdebug_inb;
  inw = none;
  inl = none;
  outb = some biosdebug_outb;
  outw = none;
  outl = none;
}

-- These have no state: `S` is that of the others.
module _ {S : Type 0} where
  abbrev pub parport_inb : S → ℕ → Outcome (ℕ × S)
  parport_inb s port = ok (0x00, s)

  abbrev pub parport_inw : S → ℕ → Outcome (ℕ × S)
  parport_inw s port = abort

  abbrev pub parport_inl : S → ℕ → Outcome (ℕ × S)
  parport_inl s port = abort

  abbrev pub parport_outb : S → ℕ → ℕ → Outcome S
  parport_outb s port val = ok s

  abbrev pub parport_outw : S → ℕ → ℕ → Outcome S
  parport_outw s port val = abort

  abbrev pub parport_outl : S → ℕ → ℕ → Outcome S
  parport_outl s port val = abort

  abbrev pub parport_handler : ℕ → IoHandler S
  parport_handler base = record {
    base = base;
    mask = 0xFFFC;
    inb = some parport_inb;
    inw = some parport_inw;
    inl = some parport_inl;
    outb = some parport_outb;
    outw = some parport_outw;
    outl = some parport_outl;
  }

  abbrev pub parallelport_handlers : List (IoHandler S)
  parallelport_handlers = parport_handler 0x0378 ∷ parport_handler 0x0278 ∷ []

  abbrev pub serport_inb : S → ℕ → Outcome (ℕ × S)
  serport_inb s port = ok (0x00, s)

  abbrev pub serport_inw : S → ℕ → Outcome (ℕ × S)
  serport_inw s port = abort

  abbrev pub serport_inl : S → ℕ → Outcome (ℕ × S)
  serport_inl s port = abort

  abbrev pub serport_outb : S → ℕ → ℕ → Outcome S
  serport_outb s port val = ok s

  abbrev pub serport_outw : S → ℕ → ℕ → Outcome S
  serport_outw s port val = abort

  abbrev pub serport_outl : S → ℕ → ℕ → Outcome S
  serport_outl s port val = abort

  abbrev pub serport_handler : ℕ → IoHandler S
  serport_handler base = record {
    base = base;
    mask = 0xFFF8;
    inb = some serport_inb;
    inw = some serport_inw;
    inl = some serport_inl;
    outb = some serport_outb;
    outw = some serport_outw;
    outl = some serport_outl;
  }

  abbrev pub serialport_handlers : List (IoHandler S)
  serialport_handlers =
      serport_handler 0x03F8
      ∷ serport_handler 0x02F8
      ∷ serport_handler 0x03E8
      ∷ serport_handler 0x02E8
      ∷ []

  abbrev pub dbg_inb : S → ℕ → Outcome (ℕ × S)
  dbg_inb s port = abort

  abbrev pub dbg_outb : S → ℕ → ℕ → Outcome S
  dbg_outb s port val = ok s

  abbrev pub vgadbg_handler : IoHandler S
  vgadbg_handler = record {
    base = 0x500;
    mask = 0xFFFF;
    inb = some dbg_inb;
    inw = none;
    inl = none;
    outb = some dbg_outb;
    outw = none;
    outl = none;
  }

  abbrev pub vbe_inb : S → ℕ → Outcome (ℕ × S)
  vbe_inb s port = ok (0, s)

  abbrev pub vbe_inw : S → ℕ → Outcome (ℕ × S)
  vbe_inw s port = ok (0, s)

  abbrev pub vbe_outb : S → ℕ → ℕ → Outcome S
  vbe_outb s port val = ok s

  abbrev pub vbe_outw : S → ℕ → ℕ → Outcome S
  vbe_outw s port val = ok s

  abbrev pub vbe_handler : IoHandler S
  vbe_handler = record {
    base = 0x1CE;
    mask = 0xFFFE;
    inb = some vbe_inb;
    inw = some vbe_inw;
    inl = none;
    outb = some vbe_outb;
    outw = some vbe_outw;
    outl = none;
  }
