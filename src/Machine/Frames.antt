-- ===== src/Machine/Frames.antt =====
-- devices/devices.c: what each handler of the table leaves alone.
use kvmulate.Prelude.{IfReturns, ℕ, ◌≢◌, refl, Option, none, some, Outcome, ok, abort, fault, ◌>>=◌}
use kvmulate.Prelude.Parts.{Part}
use kvmulate.Io.{IoHandler}
use kvmulate.Io.Parts.{handler_part, in_part, out_part}
use kvmulate.Dma.{first, second}
use kvmulate.Ata.Ports.{ata_handler}
use kvmulate.SmallPorts.{
  pos_handler, biosdebug_handler, parport_handler, serport_handler, vgadbg_handler, vbe_handler,
}
use kvmulate.Handlers.{
  cmos_handler, i8237_handler, i8237_page_handler, pci_handler, qemupara_handler, kbd_handler,
  vgareg_handler, floppy_handler,
}
use kvmulate.Machine.{
  Machine, cmos_part, pos_part, debug_part, dma_part, bus_part, firmware_part, keyboard_part,
  vga_part, fdc_part, ata_part,
}
use kvmulate.Machine.Owners.{Owner, handler_of}
use kvmulate.Machine.Components.{Component, Same, Same-refl, component}

-- A function of a handler keeps the component.
abbrev pub KeepsIn : Component → Option (Machine → ℕ → Outcome (ℕ × Machine)) → Type 0
KeepsIn c none = Unit {0}
KeepsIn c (some f) = (m : Machine) (port : ℕ) → IfReturns (λ q. Same c m q.1) (f m port)

abbrev pub KeepsOut : Component → Option (Machine → ℕ → ℕ → Outcome Machine) → Type 0
KeepsOut c none = Unit {0}
KeepsOut c (some f) = (m : Machine) (port val : ℕ) → IfReturns (Same c m) (f m port val)

pub record KeepsAll (c : Component) (h : IoHandler Machine) : Type 0 where
  pub outb : KeepsOut c h.outb
  pub outw : KeepsOut c h.outw
  pub outl : KeepsOut c h.outl
  pub inb : KeepsIn c h.inb
  pub inw : KeepsIn c h.inw
  pub inl : KeepsIn c h.inl

module _ {S : Type 0} (part : Part Machine S) (c : Component)
    (frame : (s : S) (m : Machine) → Same c m (part.set s m)) where
  in_part-KeepsIn : (f : Option (S → ℕ → Outcome (ℕ × S))) → KeepsIn c (in_part part f)
  in_part-KeepsIn none = tt
  in_part-KeepsIn (some f) = λ m port. go m (f (part.get m) port)
    where
      go :
          (m : Machine) (r : Outcome (ℕ × S))
          → IfReturns (λ (q : ℕ × Machine). Same c m q.1) (r >>= λ q. ok (q.0, part.set q.1 m))
      go m (ok q) = frame q.1 m
      go m abort = tt
      go m fault = tt

  out_part-KeepsOut : (f : Option (S → ℕ → ℕ → Outcome S)) → KeepsOut c (out_part part f)
  out_part-KeepsOut none = tt
  out_part-KeepsOut (some f) = λ m port val. go m (f (part.get m) port val)
    where
      go : (m : Machine) (r : Outcome S) → IfReturns (Same c m) (r >>= λ s. ok (part.set s m))
      go m (ok s) = frame s m
      go m abort = tt
      go m fault = tt

  handler_part-KeepsAll : (h : IoHandler S) → KeepsAll c (handler_part part h)
  handler_part-KeepsAll h = record {
    outb = out_part-KeepsOut h.outb;
    outw = out_part-KeepsOut h.outw;
    outl = out_part-KeepsOut h.outl;
    inb = in_part-KeepsIn h.inb;
    inw = in_part-KeepsIn h.inw;
    inl = in_part-KeepsIn h.inl;
  }

-- A part's component is the only one that a change of the part touches.
abbrev Frame : {S : Type 0} → Part Machine S → Component → Type 0
Frame {S} part own =
    (c : Component) → some own ≢ some c → (s : S) (m : Machine) → Same c m (part.set s m)

cmos_part-Frame : Frame cmos_part Component.clock
cmos_part-Frame Component.clock other s m = absurd (other refl)
cmos_part-Frame Component.bus other s m = (refl, refl)
cmos_part-Frame _ other s m = refl

pos_part-Frame : Frame pos_part Component.control
pos_part-Frame Component.control other s m = absurd (other refl)
pos_part-Frame Component.bus other s m = (refl, refl)
pos_part-Frame _ other s m = refl

debug_part-Frame : Frame debug_part Component.debug
debug_part-Frame Component.debug other s m = absurd (other refl)
debug_part-Frame Component.bus other s m = (refl, refl)
debug_part-Frame _ other s m = refl

dma_part-Frame : Frame dma_part Component.floppy
dma_part-Frame Component.floppy other s m = absurd (other refl)
dma_part-Frame Component.bus other s m = (refl, refl)
dma_part-Frame _ other s m = refl

bus_part-Frame : Frame bus_part Component.bus
bus_part-Frame Component.bus other s m = absurd (other refl)
bus_part-Frame _ other s m = refl

firmware_part-Frame : Frame firmware_part Component.firmware
firmware_part-Frame Component.firmware other s m = absurd (other refl)
firmware_part-Frame Component.bus other s m = (refl, refl)
firmware_part-Frame _ other s m = refl

keyboard_part-Frame : Frame keyboard_part Component.keyboard
keyboard_part-Frame Component.keyboard other s m = absurd (other refl)
keyboard_part-Frame Component.bus other s m = (refl, refl)
keyboard_part-Frame _ other s m = refl

vga_part-Frame : Frame vga_part Component.video
vga_part-Frame Component.video other s m = absurd (other refl)
vga_part-Frame Component.bus other s m = (refl, refl)
vga_part-Frame _ other s m = refl

fdc_part-Frame : Frame fdc_part Component.floppy
fdc_part-Frame Component.floppy other s m = absurd (other refl)
fdc_part-Frame Component.bus other s m = (refl, refl)
fdc_part-Frame _ other s m = refl

ata_part-Frame : Frame ata_part Component.disk
ata_part-Frame Component.disk other s m = absurd (other refl)
ata_part-Frame Component.bus other s m = (refl, refl)
ata_part-Frame _ other s m = refl

parport-KeepsAll : (c : Component) (base : ℕ) → KeepsAll c (parport_handler base)
parport-KeepsAll c base = record {
  outb = λ m port val. Same-refl c m;
  outw = λ m port val. tt;
  outl = λ m port val. tt;
  inb = λ m port. Same-refl c m;
  inw = λ m port. tt;
  inl = λ m port. tt;
}

serport-KeepsAll : (c : Component) (base : ℕ) → KeepsAll c (serport_handler base)
serport-KeepsAll c base = record {
  outb = λ m port val. Same-refl c m;
  outw = λ m port val. tt;
  outl = λ m port val. tt;
  inb = λ m port. Same-refl c m;
  inw = λ m port. tt;
  inl = λ m port. tt;
}

vbe-KeepsAll : (c : Component) → KeepsAll c vbe_handler
vbe-KeepsAll c = record {
  outb = λ m port val. Same-refl c m;
  outw = λ m port val. Same-refl c m;
  outl = tt;
  inb = λ m port. Same-refl c m;
  inw = λ m port. Same-refl c m;
  inl = tt;
}

vgadbg-KeepsAll : (c : Component) → KeepsAll c vgadbg_handler
vgadbg-KeepsAll c = record {
  outb = λ m port val. Same-refl c m;
  outw = tt;
  outl = tt;
  inb = λ m port. tt;
  inw = tt;
  inl = tt;
}

-- Every handler of the table keeps the components that are not its own.
pub handler_of-KeepsAll :
    (o : Owner) (c : Component) → component o ≢ some c → KeepsAll c (handler_of o)
handler_of-KeepsAll Owner.dma_first c other =
    handler_part-KeepsAll dma_part c (dma_part-Frame c other) (i8237_handler first 0x00 0xFFF0)
handler_of-KeepsAll Owner.dma_second c other =
    handler_part-KeepsAll dma_part c (dma_part-Frame c other) (i8237_handler second 0xC0 0xFFE0)
handler_of-KeepsAll Owner.dma_page c other =
    handler_part-KeepsAll dma_part c (dma_part-Frame c other) i8237_page_handler
handler_of-KeepsAll Owner.keyboard c other =
    handler_part-KeepsAll keyboard_part c (keyboard_part-Frame c other) kbd_handler
handler_of-KeepsAll Owner.rtc c other =
    handler_part-KeepsAll cmos_part c (cmos_part-Frame c other) cmos_handler
handler_of-KeepsAll Owner.system_control c other =
    handler_part-KeepsAll pos_part c (pos_part-Frame c other) pos_handler
handler_of-KeepsAll Owner.disk c other =
    handler_part-KeepsAll ata_part c (ata_part-Frame c other) ata_handler
handler_of-KeepsAll Owner.vga_first c other =
    handler_part-KeepsAll vga_part c (vga_part-Frame c other) (vgareg_handler 0x3C0)
handler_of-KeepsAll Owner.vga_second c other =
    handler_part-KeepsAll vga_part c (vga_part-Frame c other) (vgareg_handler 0x3D0)
handler_of-KeepsAll Owner.floppy c other =
    handler_part-KeepsAll fdc_part c (fdc_part-Frame c other) floppy_handler
handler_of-KeepsAll Owner.bios_debug c other =
    handler_part-KeepsAll debug_part c (debug_part-Frame c other) biosdebug_handler
handler_of-KeepsAll Owner.firmware c other =
    handler_part-KeepsAll firmware_part c (firmware_part-Frame c other) qemupara_handler
handler_of-KeepsAll Owner.pci c other =
    handler_part-KeepsAll bus_part c (bus_part-Frame c other) pci_handler
handler_of-KeepsAll Owner.vbe c other = vbe-KeepsAll c
handler_of-KeepsAll Owner.parallel_first c other = parport-KeepsAll c 0x378
handler_of-KeepsAll Owner.parallel_second c other = parport-KeepsAll c 0x278
handler_of-KeepsAll Owner.serial_first c other = serport-KeepsAll c 0x3F8
handler_of-KeepsAll Owner.serial_second c other = serport-KeepsAll c 0x2F8
handler_of-KeepsAll Owner.serial_third c other = serport-KeepsAll c 0x3E8
handler_of-KeepsAll Owner.serial_fourth c other = serport-KeepsAll c 0x2E8
handler_of-KeepsAll Owner.vga_debug c other = vgadbg-KeepsAll c
