-- ===== src/Machine/Mapped.antt =====
-- mmio.c, devices/x86/vga/ram.c and rom.c: the devices in memory space keep the invariants of all devices.
use kvmulate.Prelude.{ℕ, refl, Outcome, ok, abort, fault, ◌>>=◌, Bool, Cells, IfReturns}
use kvmulate.Prelude.Parts.{Part}
use kvmulate.Io.Parts.Keeping.{in_part-InKeeps, out_part-OutKeeps, any_in, any_out}
use kvmulate.Mmio.{MmioDevice, mmio_register_device}
use kvmulate.Mmio.Keeping.{DeviceKeeps, AllKeep, handle_mmio-Kept}
use kvmulate.Exits.{handle_mmio}
use kvmulate.Vga.Invariant.{Inv as VgaInv}
use kvmulate.Vga.Ram.{Screen, gfxram, readb, readw, readl, writeb, writew, writel}
use kvmulate.Machine.{Machine}
use kvmulate.Machine.Memory.{device_part, screen_part, rom_part, pcirom, memory_devices}
use kvmulate.Machine.Invariant.{MachineInv, moved}

module _ {T S : Type 0} (part : Part T S) (I : S → Type 0) (J : T → Type 0)
    (down : (t : T) → J t → I (part.get t))
    (up : (t : T) (s : S) → J t → I s → J (part.set s t)) where
  device_part-DeviceKeeps :
      (d : MmioDevice S) → DeviceKeeps I d → DeviceKeeps J (device_part part d)
  device_part-DeviceKeeps d k = record {
    readb = in_part-InKeeps part I J down up d.readb k.readb;
    readw = in_part-InKeeps part I J down up d.readw k.readw;
    readl = in_part-InKeeps part I J down up d.readl k.readl;
    readq = in_part-InKeeps part I J down up d.readq k.readq;
    writeb = out_part-OutKeeps part I J down up d.writeb k.writeb;
    writew = out_part-OutKeeps part I J down up d.writew k.writew;
    writel = out_part-OutKeeps part I J down up d.writel k.writel;
    writeq = out_part-OutKeeps part I J down up d.writeq k.writeq;
  }

any_device : {S : Type 0} (d : MmioDevice S) → DeviceKeeps (λ s. Unit {0}) d
any_device d = record {
  readb = any_in d.readb;
  readw = any_in d.readw;
  readl = any_in d.readl;
  readq = any_in d.readq;
  writeb = any_out d.writeb;
  writew = any_out d.writew;
  writel = any_out d.writel;
  writeq = any_out d.writeq;
}

-- Reads and writes of the planes leave the registers alone.
plane_read :
    (s : Screen) (m : Outcome ℕ) (f : ℕ → ℕ)
    → VgaInv s.vga
    → IfReturns (λ (q : ℕ × Screen). VgaInv q.1.vga) (m >>= λ i. ok (f i, s))
plane_read s (ok i) f j = j
plane_read s abort f j = tt
plane_read s fault f j = tt

plane_write :
    (s : Screen) (m : Outcome (ℕ → Cells))
    → VgaInv s.vga
    → IfReturns (λ (t : Screen). VgaInv t.vga) (m >>= λ planes. ok (record s { planes = planes }))
plane_write s (ok planes) j = j
plane_write s abort j = tt
plane_write s fault j = tt

gfxram-DeviceKeeps : DeviceKeeps (λ (s : Screen). VgaInv s.vga) gfxram
unfolding readb readw readl writeb writew writel
gfxram-DeviceKeeps = record {
  readb = λ s a j. plane_read s _ _ j;
  readw = λ s a j. plane_read s _ _ j;
  readl = λ s a j. plane_read s _ _ j;
  readq = λ s a j. plane_read s _ _ j;
  writeb = λ s a v j. plane_write s _ j;
  writew = λ s a v j. plane_write s _ j;
  writel = λ s a v j. plane_write s _ j;
  writeq = λ s a v j. j;
}

memory_devices-AllKeep :
    (ramsize : ℕ) (m : Machine) → AllKeep (MachineInv ramsize) (memory_devices m)
unfolding memory_devices mmio_register_device
memory_devices-AllKeep ramsize m = (
  device_part-DeviceKeeps rom_part (λ r. Unit {0}) (MachineInv ramsize) (λ n j. tt)
      (λ n r j i. moved ramsize n (rom_part.set r n) j refl refl refl) (pcirom m.functions.0.base)
      (any_device (pcirom m.functions.0.base)),
  (
    device_part-DeviceKeeps screen_part (λ (s : Screen). VgaInv s.vga) (MachineInv ramsize)
        (λ n j. j.video) (λ n s j i. record { clock = j.clock; keyboard = j.keyboard; video = i })
        gfxram gfxram-DeviceKeeps,
    tt,
  ),
)

-- An exit for memory, of the whole machine.
pub memory-Keeps :
    (ramsize : ℕ) (m : Machine) (is_write : Bool) (address len : ℕ) (bytes : Cells)
    → MachineInv ramsize m
    → IfReturns
        (λ (q : Cells × Machine). MachineInv ramsize q.1)
        (handle_mmio (memory_devices m) is_write address len bytes m)
memory-Keeps ramsize m is_write address len bytes j =
    handle_mmio-Kept (MachineInv ramsize) (memory_devices m) is_write address len bytes m
      (memory_devices-AllKeep ramsize m) j
