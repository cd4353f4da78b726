-- ===== src/Tests/Video.antt =====
-- devices/x86/vga/registers.c: the registers after the initialisation.
use kvmulate.Prelude.{
  update, zeros, ◌%◌, ◌<◌, ◌/◌, ◌^◌, ◌==◌, ◌&&◌, if◌then◌else◌, ℕ, ◌≡◌, ◌≢◌, List, [], ◌∷◌, ok,
  arith, run, Safe, Returns,
}
use kvmulate.Vga.{start}
use kvmulate.Vga.Invariant.{Access, Inv, step, run_vga-Inv, in_byte, out_word}
use kvmulate.Vga.Palette.{set_entry, get_entry, get_entry-set_entry}
use kvmulate.Vga.Ram.{Screen, readb, writeb}
use kvmulate.Vga.Ram.Planes.{readb-writeb}

not_palette : ◌≢◌ {A = ℕ} 0x3CF 0x3C9
not_palette e = omega arith

abbrev accesses : List Access
accesses = out_word 0x3C0 14 0x0509 ∷ in_byte 0x3C0 15 not_palette ∷ out_word 0x3D0 4 0x7F18 ∷ []

run_vga-Inv_example : Safe Inv (run step accesses start)
run_vga-Inv_example = run_vga-Inv accesses

get_entry-set_entry_example :
    Returns
      (λ w.
        (get_entry 255 w ≡ ok (1, 2, 3)) × (◌≢◌ {A = ℕ} 255 7 → get_entry 7 w ≡ get_entry 7 start))
      (set_entry 255 1 2 3 start)
get_entry-set_entry_example = get_entry-set_entry 255 7 1 2 3 start (omega arith) (omega arith)

abbrev screen : Screen
screen = record { vga = record start { seq_reg = update zeros 2 5 }; planes = λ p. zeros }

readb-writeb_example :
    Returns
      (λ t.
        ((q i : ℕ) → q < 4 → t.planes q i ≡ (if 5 / 2 ^ q % 2 == 1 && i == 16 then 77 else 0))
        × (readb t 0xA0010 ≡ ok (77, t)))
      (writeb screen 0xA0010 77)
readb-writeb_example = readb-writeb screen 16 77 (omega arith)
