-- ===== src/Machine/Components.antt =====
-- devices/devices.c: the state of the machine by the devices that it belongs to.
use kvmulate.Prelude.{ℕ, ◌≡◌, refl, ◌∙◌, Option, none, some}
use kvmulate.Machine.{Machine}
use kvmulate.Machine.Owners.{Owner, owner}

-- The parts of the state that belong together. The floppy controller holds the DMA controller.
pub data Component : Type 0 where
  clock control debug bus firmware keyboard video floppy disk : Component

abbrev pub Same : Component → Machine → Machine → Type 0
Same Component.clock m n = m.cmos ≡ n.cmos
Same Component.control m n = m.a20_en ≡ n.a20_en
Same Component.debug m n = m.printed ≡ n.printed
Same Component.bus m n = (m.bus ≡ n.bus) × (m.functions ≡ n.functions)
Same Component.firmware m n = m.firmware ≡ n.firmware
Same Component.keyboard m n = m.keyboard ≡ n.keyboard
Same Component.video m n = m.screen ≡ n.screen
Same Component.floppy m n = m.fdc ≡ n.fdc
Same Component.disk m n = m.ata ≡ n.ata

pub Same-refl : (c : Component) (m : Machine) → Same c m m
Same-refl Component.bus m = (refl, refl)
Same-refl _ m = refl

pub Same-trans : (c : Component) (m n k : Machine) → Same c m n → Same c n k → Same c m k
Same-trans Component.bus m n k p q = (p.0 ∙ q.0, p.1 ∙ q.1)
Same-trans _ m n k p q = p ∙ q

-- The component of a port's owner; the parallel and serial ports, the debug port of the VGA and the
-- VBE ports have no state.
abbrev pub component : Owner → Option Component
component Owner.dma_first = some Component.floppy
component Owner.dma_second = some Component.floppy
component Owner.dma_page = some Component.floppy
component Owner.keyboard = some Component.keyboard
component Owner.rtc = some Component.clock
component Owner.system_control = some Component.control
component Owner.disk = some Component.disk
component Owner.vga_first = some Component.video
component Owner.vga_second = some Component.video
component Owner.floppy = some Component.floppy
component Owner.bios_debug = some Component.debug
component Owner.firmware = some Component.firmware
component Owner.pci = some Component.bus
component _ = none

abbrev pub component_at : ℕ → Option Component
component_at port = elim (owner port) [ none ↦ none | some o ↦ component o ]
