-- ===== src/Machine/Steps.antt =====
-- devices/devices.c, the exits of the guest and the viewer's thread: what holds of the devices in
-- whatever order the guest's accesses, the keys of the host and the time come.
use kvmulate.Prelude.{
  Bool, ℕ, ◌<◌, ◌≡◌, refl, List, [], ◌∷◌, map, Option, none, some, Outcome, ok, ◌>>=◌, Cells, run,
  IfReturns, IfReturns->>=, Returns, sym,
}
use mathlib.Core.Path.{subst}
use mathlib.Core.Option
use kvmulate.Files.{File}
use kvmulate.LowMem.{LowMem}
use kvmulate.MemoryMap.{ram_end}
use kvmulate.Io.{IoHandler}
use kvmulate.Io.Parts.{Access, port_of, perform}
use kvmulate.Io.Parts.Keeping.{FoundKeeps, perform-Kept}
use kvmulate.Ata.{AtaController}
use kvmulate.Cmos.{Tm}
use kvmulate.Cmos.Invariant.{x86_cmos_init-Inv}
use kvmulate.I8042.{Regs}
use kvmulate.I8042.Invariant.{Inv as KeyboardInv, kbd_inject-Inv, x86_keyboard_init-Inv}
use kvmulate.Vga.Invariant.{start-Inv}
use kvmulate.Vga.Viewer.Keys.{
  SdlEvent, key_event, other, handle_event, handle_event-other, handle_event-scancode, scancode_of,
  keys,
}
use kvmulate.Machine.{Machine, keyboard_part, port_table}
use kvmulate.Machine.Start.{start_machine, unset_keyboard}
use kvmulate.Machine.Owners.{Owner, handler_of, owner, registered}
use kvmulate.Machine.Ports.{lookup-owner, of_table}
use kvmulate.Machine.Keys.{on_event}
use kvmulate.Exits.{handle_mmio}
use kvmulate.Machine.Memory.{memory_devices}
use kvmulate.Machine.Mapped.{memory-Keeps}
use kvmulate.Machine.Invariant.{MachineInv, KeyboardInv-calls, handler_of-Keeps}

-- An access of the guest to a port, its exit for memory, an event of the viewer's thread, or a new
-- time of the host.
pub data Step : Type 0 where
  access : Access → Step
  memory : Bool → ℕ → ℕ → Cells → Step
  event : SdlEvent → Step
  clock : Tm → Step

unfoldable pub step : List (IoHandler Machine) → Step → Machine → Outcome Machine
step hs (access a) m = perform hs a m >>= λ q. ok q.1
step hs (memory is_write address len bytes) m =
    handle_mmio (memory_devices m) is_write address len bytes m >>= λ q. ok q.1
step hs (event e) m = on_event e m
step hs (clock t) m = ok (record m { now = t })

-- Ports have 16 bits.
abbrev pub AllPorts : List Step → Type 0
AllPorts [] = Unit {0}
AllPorts (access a ∷ ss) = (port_of a < 65536) × AllPorts ss
AllPorts (s ∷ ss) = AllPorts ss

handle_event-Keeps :
    (e : SdlEvent) (r : Regs) → KeyboardInv r → IfReturns KeyboardInv (handle_event e r)
handle_event-Keeps other r i = subst (IfReturns KeyboardInv) (sym (handle_event-other r)) i
handle_event-Keeps (key_event pressed k) r i = go (scancode_of k keys) refl
  where
    go :
        (o : Option ℕ)
        → scancode_of k keys ≡ o
        → IfReturns KeyboardInv (handle_event (key_event pressed k) r)
    go none e = subst (IfReturns KeyboardInv) (sym (handle_event-scancode pressed k r none e)) i
    go (some sc) e =
        subst (IfReturns KeyboardInv) (sym (handle_event-scancode pressed k r (some sc) e))
          (kbd_inject-Inv sc pressed r i)

module _ (ramsize : ℕ) where
  access-Keeps :
      (a : Access) (m : Machine)
      → port_of a < 65536
      → MachineInv ramsize m
      → IfReturns (MachineInv ramsize) (step (map handler_of registered) (access a) m)
  unfolding step
  access-Keeps a m port j =
      IfReturns->>= (λ (q : List ℕ × Machine). MachineInv ramsize q.1) (MachineInv ramsize)
        (perform (map handler_of registered) a m) (λ q. ok q.1)
        (perform-Kept (MachineInv ramsize) (map handler_of registered) a m
          (Option.map handler_of (owner (port_of a))) (lookup-owner (port_of a) port)
          (found (owner (port_of a))) j)
        (λ q i. i)
    where
      found : (o : Option Owner) → FoundKeeps (MachineInv ramsize) (Option.map handler_of o)
      found none = tt
      found (some o) = handler_of-Keeps ramsize o

  exit-Keeps :
      (is_write : Bool) (address len : ℕ) (bytes : Cells) (m : Machine)
      → MachineInv ramsize m
      → IfReturns
          (MachineInv ramsize)
          (step (map handler_of registered) (memory is_write address len bytes) m)
  unfolding step
  exit-Keeps is_write address len bytes m j =
      IfReturns->>= (λ (q : Cells × Machine). MachineInv ramsize q.1) (MachineInv ramsize)
        (handle_mmio (memory_devices m) is_write address len bytes m) (λ q. ok q.1)
        (memory-Keeps ramsize m is_write address len bytes j) (λ q i. i)

  event-Keeps :
      (e : SdlEvent) (m : Machine)
      → MachineInv ramsize m
      → IfReturns (MachineInv ramsize) (on_event e m)
  event-Keeps e m j =
      let r = keyboard_part.get m in
      IfReturns->>= KeyboardInv (MachineInv ramsize) (handle_event e r)
        (λ s. ok (keyboard_part.set s m))
        (handle_event-Keeps e r (KeyboardInv-calls m.keyboard m.calls j.keyboard))
        (λ s i. record { clock = j.clock; keyboard = i; video = j.video })

  steps-Keep :
      (ss : List Step) (m : Machine)
      → AllPorts ss
      → MachineInv ramsize m
      → IfReturns (MachineInv ramsize) (run (step (map handler_of registered)) ss m)
  unfolding run step
  steps-Keep [] m ports j = j
  steps-Keep (access a ∷ ss) m ports j =
      IfReturns->>= (MachineInv ramsize) (MachineInv ramsize)
        (step (map handler_of registered) (access a) m) (run (step (map handler_of registered)) ss)
        (access-Keeps a m ports.0 j) (λ n k. steps-Keep ss n ports.1 k)
  steps-Keep (memory is_write address len bytes ∷ ss) m ports j =
      IfReturns->>= (MachineInv ramsize) (MachineInv ramsize)
        (step (map handler_of registered) (memory is_write address len bytes) m)
        (run (step (map handler_of registered)) ss) (exit-Keeps is_write address len bytes m j)
        (λ n k. steps-Keep ss n ports k)
  steps-Keep (event e ∷ ss) m ports j =
      IfReturns->>= (MachineInv ramsize) (MachineInv ramsize) (on_event e m)
        (run (step (map handler_of registered)) ss) (event-Keeps e m j)
        (λ n k. steps-Keep ss n ports k)
  steps-Keep (clock t ∷ ss) m ports j =
      steps-Keep ss (record m { now = t }) ports
        (record { clock = j.clock; keyboard = j.keyboard; video = j.video })

-- From the state that the initialisations leave, in whatever order the guest's accesses to the ports
-- of all devices, its exits for memory, the key events of the host and the changes of its clock come:
-- as long as they return, the keyboard controller, the VGA and the CMOS keep their invariants, the
-- CMOS with the size of the memory that was stored at the start.
pub run_machine-Inv :
    (ss : List Step) (now : Tm) (megs : ℕ) (rom : Option Cells) (floppy : Option File)
    (mem : LowMem) (buffer : Cells) (planes : ℕ → Cells) (ata : AtaController)
    → AllPorts ss
    → Returns
        (λ table.
          IfReturns
            (MachineInv (ram_end megs))
            (run (step table) ss (start_machine now megs rom floppy mem buffer planes ata)))
        port_table
run_machine-Inv ss now megs rom floppy mem buffer planes ata ports =
    let m = start_machine now megs rom floppy mem buffer planes ata in
    of_table (λ table. IfReturns (MachineInv (ram_end megs)) (run (step table) ss m))
      (steps-Keep (ram_end megs) ss m ports (record {
        clock = x86_cmos_init-Inv (ram_end megs);
        keyboard = x86_keyboard_init-Inv unset_keyboard;
        video = start-Inv;
      }))
