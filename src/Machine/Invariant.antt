-- ===== src/Machine/Invariant.antt =====
-- devices/devices.c: the invariants of the devices, together, and the handlers of the table.
use kvmulate.Prelude.{ℕ, ◌≡◌, refl, List, ok, IfReturns->>=, Safe-IfReturns, sym}
use mathlib.Core.Path.{subst}
use kvmulate.Prelude.Parts.{Part}
use kvmulate.Io.{IoHandler}
use kvmulate.Io.Parts.{handler_part}
use kvmulate.Io.Parts.Keeping.{HandlerKeeps, handler_part-HandlerKeeps, any_handler}
use kvmulate.Irq.{IrqLevel}
use kvmulate.Ata.Ports.{ata_handler}
use kvmulate.Cmos.{Tm, Cmos, cmos_inb, cmos_outb}
use kvmulate.Cmos.Invariant.{Inv as CmosInv, cmos_inb-Inv, cmos_outb-Inv}
use kvmulate.Dma.{Dma, first, second}
use kvmulate.I8042.{Regs, kbd_inb, kbd_outb}
use kvmulate.I8042.Invariant.{Inv as KeyboardInv, kbd_inb-Inv, kbd_outb-Inv}
use kvmulate.SmallPorts.{
  pos_handler, biosdebug_handler, parport_handler, serport_handler, vgadbg_handler, vbe_handler,
}
use kvmulate.Vga.Invariant.{Inv as VgaInv, vgareg_inb-Inv, vgareg_outb-Inv, outw-Inv}
use kvmulate.Handlers.{
  cmos_handler, i8237_handler, i8237_page_handler, pci_handler, qemupara_handler, kbd_handler,
  vgareg_handler, floppy_handler,
}
use kvmulate.Machine.{
  Machine, cmos_part, pos_part, debug_part, dma_part, bus_part, firmware_part, keyboard_part,
  vga_part, fdc_part, ata_part,
}
use kvmulate.Machine.Owners.{Owner, handler_of}

-- The invariants of the devices that have one.
pub record MachineInv (ramsize : ℕ) (m : Machine) : Type 0 where
  pub clock : CmosInv ramsize m.cmos
  pub keyboard : KeyboardInv m.keyboard
  pub video : VgaInv m.screen.vga

cmos_handler-Keeps : (ramsize : ℕ) → HandlerKeeps (λ s. CmosInv ramsize s.1) cmos_handler
cmos_handler-Keeps ramsize = record {
  outb = λ s port val i.
      IfReturns->>= (CmosInv ramsize) (λ (s : Tm × Cmos). CmosInv ramsize s.1)
        (cmos_outb port val s.1) (λ c. ok (s.0, c))
        (Safe-IfReturns (CmosInv ramsize) (cmos_outb port val s.1)
          (cmos_outb-Inv ramsize port val s.1 i))
        (λ c j. j);
  outw = tt;
  outl = tt;
  inb = λ s port i.
      IfReturns->>= (λ (q : ℕ × Cmos). CmosInv ramsize q.1)
        (λ (q : ℕ × (Tm × Cmos)). CmosInv ramsize q.1.1) (cmos_inb s.0 port s.1)
        (λ q. ok (q.0, (s.0, q.1)))
        (Safe-IfReturns (λ (q : ℕ × Cmos). CmosInv ramsize q.1) (cmos_inb s.0 port s.1)
          (cmos_inb-Inv ramsize port s.0 s.1 i))
        (λ q j. j);
  inw = tt;
  inl = tt;
}

kbd_handler-Keeps : HandlerKeeps KeyboardInv kbd_handler
kbd_handler-Keeps = record {
  outb =
      λ r port val i. Safe-IfReturns KeyboardInv (kbd_outb port val r) (kbd_outb-Inv port val r i);
  outw = λ r port val i. tt;
  outl = λ r port val i. tt;
  inb = λ r port i.
      Safe-IfReturns (λ (q : ℕ × Regs). KeyboardInv q.1) (kbd_inb port r) (kbd_inb-Inv port r i);
  inw = λ r port i. tt;
  inl = λ r port i. tt;
}

vgareg_handler-Keeps : (base : ℕ) → HandlerKeeps VgaInv (vgareg_handler base)
vgareg_handler-Keeps base = record {
  outb = λ v port val i. vgareg_outb-Inv base port val v i;
  outw = λ v port val i. Safe-IfReturns VgaInv _ (outw-Inv base port val v i);
  outl = λ v port val i. tt;
  inb = λ v port i. vgareg_inb-Inv base port v i;
  inw = λ v port i. tt;
  inl = λ v port i. tt;
}

-- The calls of irq_set are no part of it.
pub KeyboardInv-calls :
    (r : Regs) (calls : List IrqLevel) → KeyboardInv r → KeyboardInv (record r { calls = calls })
KeyboardInv-calls r calls i = record {
  byte = i.byte;
  room = i.room;
  full = i.full;
  one_param = i.one_param;
  one_kbdparam = i.one_kbdparam;
}

module _ (ramsize : ℕ) where
  abbrev J : Machine → Type 0
  J = MachineInv ramsize

  -- A handler of a part that has no invariant, in a machine where it changes no part that has one.
  plain :
      {S : Type 0} (part : Part Machine S) (h : IoHandler S)
      → ((m : Machine) (s : S) → J m → J (part.set s m))
      → HandlerKeeps J (handler_part part h)
  plain {S} part h up =
      handler_part-HandlerKeeps part (λ (s : S). Unit {0}) J (λ m j. tt) (λ m s j i. up m s j) h
        (any_handler h)

  -- The invariants do not reach the other parts of the state.
  pub moved :
      (m n : Machine)
      → J m
      → n.cmos ≡ m.cmos
      → n.keyboard ≡ m.keyboard
      → n.screen.vga ≡ m.screen.vga
      → J n
  moved m n j clock keyboard video = record {
    clock = subst (CmosInv ramsize) (sym clock) j.clock;
    keyboard = subst KeyboardInv (sym keyboard) j.keyboard;
    video = subst VgaInv (sym video) j.video;
  }

  parport-Keeps : (base : ℕ) → HandlerKeeps J (parport_handler base)
  parport-Keeps base = record {
    outb = λ m port val j. j;
    outw = λ m port val j. tt;
    outl = λ m port val j. tt;
    inb = λ m port j. j;
    inw = λ m port j. tt;
    inl = λ m port j. tt;
  }

  serport-Keeps : (base : ℕ) → HandlerKeeps J (serport_handler base)
  serport-Keeps base = record {
    outb = λ m port val j. j;
    outw = λ m port val j. tt;
    outl = λ m port val j. tt;
    inb = λ m port j. j;
    inw = λ m port j. tt;
    inl = λ m port j. tt;
  }

  vbe-Keeps : HandlerKeeps J vbe_handler
  vbe-Keeps = record {
    outb = λ m port val j. j;
    outw = λ m port val j. j;
    outl = tt;
    inb = λ m port j. j;
    inw = λ m port j. j;
    inl = tt;
  }

  vgadbg-Keeps : HandlerKeeps J vgadbg_handler
  vgadbg-Keeps = record {
    outb = λ m port val j. j;
    outw = tt;
    outl = tt;
    inb = λ m port j. tt;
    inw = tt;
    inl = tt;
  }

  dma-up : (m : Machine) (d : Dma) → J m → J (dma_part.set d m)
  dma-up m d j = moved m (dma_part.set d m) j refl refl refl

  video : (base : ℕ) → HandlerKeeps J (handler_part vga_part (vgareg_handler base))
  video base =
      handler_part-HandlerKeeps vga_part VgaInv J (λ m j. j.video)
        (λ m v j i. record { clock = j.clock; keyboard = j.keyboard; video = i })
        (vgareg_handler base) (vgareg_handler-Keeps base)

  -- Every handler of the table keeps the invariants of all devices.
  pub handler_of-Keeps : (o : Owner) → HandlerKeeps J (handler_of o)
  handler_of-Keeps Owner.dma_first = plain dma_part (i8237_handler first 0x00 0xFFF0) dma-up
  handler_of-Keeps Owner.dma_second = plain dma_part (i8237_handler second 0xC0 0xFFE0) dma-up
  handler_of-Keeps Owner.dma_page = plain dma_part i8237_page_handler dma-up
  handler_of-Keeps Owner.keyboard =
      handler_part-HandlerKeeps keyboard_part KeyboardInv J
        (λ m j. KeyboardInv-calls m.keyboard m.calls j.keyboard)
        (λ m r j i. record { clock = j.clock; keyboard = i; video = j.video }) kbd_handler
        kbd_handler-Keeps
  handler_of-Keeps Owner.rtc =
      handler_part-HandlerKeeps cmos_part (λ (s : Tm × Cmos). CmosInv ramsize s.1) J
        (λ m j. j.clock) (λ m s j i. record { clock = i; keyboard = j.keyboard; video = j.video })
        cmos_handler (cmos_handler-Keeps ramsize)
  handler_of-Keeps Owner.system_control =
      plain pos_part pos_handler (λ m s j. moved m (pos_part.set s m) j refl refl refl)
  handler_of-Keeps Owner.disk =
      plain ata_part ata_handler (λ m s j. moved m (ata_part.set s m) j refl refl refl)
  handler_of-Keeps Owner.floppy =
      plain fdc_part floppy_handler (λ m s j. moved m (fdc_part.set s m) j refl refl refl)
  handler_of-Keeps Owner.bios_debug =
      plain debug_part biosdebug_handler (λ m s j. moved m (debug_part.set s m) j refl refl refl)
  handler_of-Keeps Owner.firmware =
      plain firmware_part qemupara_handler
        (λ m s j. moved m (firmware_part.set s m) j refl refl refl)
  handler_of-Keeps Owner.pci =
      plain bus_part pci_handler (λ m s j. moved m (bus_part.set s m) j refl refl refl)
  handler_of-Keeps Owner.vga_first = video 0x3C0
  handler_of-Keeps Owner.vga_second = video 0x3D0
  handler_of-Keeps Owner.vbe = vbe-Keeps
  handler_of-Keeps Owner.parallel_first = parport-Keeps 0x378
  handler_of-Keeps Owner.parallel_second = parport-Keeps 0x278
  handler_of-Keeps Owner.serial_first = serport-Keeps 0x3F8
  handler_of-Keeps Owner.serial_second = serport-Keeps 0x2F8
  handler_of-Keeps Owner.serial_third = serport-Keeps 0x3E8
  handler_of-Keeps Owner.serial_fourth = serport-Keeps 0x2E8
  handler_of-Keeps Owner.vga_debug = vgadbg-Keeps
