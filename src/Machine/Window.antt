-- ===== src/Machine/Window.antt =====
-- mmio.c and devices/x86/vga/ram.c: the exit for a word that the guest of the whole machine writes to
-- the VGA's window.
use kvmulate.Prelude.{
  ◌+◌, ◌/◌, ◌%◌, ◌^◌, ◌<◌, ◌≤◌, ◌≡◌, ◌≢◌, refl, ◌∙◌, fun_ext, bit_and, true, ltb, some, ℕ, zero,
  Outcome, ok, abort, fault, ◌>>=◌, arith, Cells, get16, put16, Returns, Returns->>=,
}
use kvmulate.Prelude.Int.{ℤ, pos}
use kvmulate.Prelude.Bits.{and_split, and_mask, bit_and-zero}
use kvmulate.Mmio.{get_device, mmio_register_device, mmio_write}
use kvmulate.Exits.{handle_mmio}
use kvmulate.Vga.Ram.{Screen, gfxram, writew, write_planes, plane_size, in_plane, vram_offset}
use kvmulate.Vga.Ram.Planes.{write_planes_lem, after_planes}
use kvmulate.Machine.{Machine}
use kvmulate.Machine.Memory.{memory_devices, device_part, screen_part}

window_base : (o : ℕ) → o < 0x20000 → bit_and (0xA0000 + o) 0xFFFE0000 ≡ 0xA0000
window_base o h = omega (
  arith,
  and_split 17 (0xA0000 + o) 0x7FFF 0 (omega arith),
  and_mask 15 ((0xA0000 + o) / 2 ^ 17),
  bit_and-zero ((0xA0000 + o) % 2 ^ 17),
)

window_device :
    (m : Machine) (o : ℕ)
    → o < 0x20000
    → m.functions.0.base ≢ 0xA0000
    → get_device (0xA0000 + o) (memory_devices m) ≡ some (device_part screen_part gfxram)
unfolding memory_devices mmio_register_device get_device
window_device m o h free = ground (arith, window_base o h)

-- A word in plane 0, when the map mask has its bit.
abbrev Holds : Screen → ℕ → ℕ → Screen → Type 0
Holds s o v t = (t.vga ≡ s.vga) × (t.planes 0 ≡ put16 (s.planes 0) o v)

writew-Holds :
    (s : Screen) (o v : ℕ)
    → o + 2 ≤ 0x20000
    → s.vga.seq_reg 2 % 2 ≡ 1
    → Returns (Holds s o v) (writew s (0xA0000 + o) v)
unfolding writew
writew-Holds s o v room mask =
    let at : vram_offset (0xA0000 + o) ≡ o = omega arith in
    let inside : ltb (o + 2) (plane_size + 1) ≡ true = ground arith in
    let f = λ (c : Cells). put16 c o v in
    let put = λ (c : Cells). in_plane (vram_offset (0xA0000 + o)) 2 >>= λ i. ok (put16 c i v) in
    Returns->>= (λ r. (q i : ℕ) → r q i ≡ after_planes (s.vga.seq_reg 2) 4 0 f s.planes q i)
      (Holds s o v) (write_planes 4 0 (s.vga.seq_reg 2) put s.planes)
      (λ planes. ok (record s { planes = planes }))
      (write_planes_lem 4 0 (s.vga.seq_reg 2) put f s.planes (λ c. rw (at, inside) refl))
      (λ r h. (refl, fun_ext (λ i. h 0 i ∙ ground (arith, mask))))

-- What the machine keeps on an exit that writes the word `v` at the offset `o` of the window.
abbrev pub Wrote : Machine → ℕ → ℕ → Machine → Type 0
Wrote m o v n =
    (n.functions ≡ m.functions)
    × (n.screen.vga ≡ m.screen.vga)
    × (n.screen.planes 0 ≡ put16 (m.screen.planes 0) o v)

-- The window is where it was: the guest has not put the ROM over it.
pub write_word :
    (m : Machine) (o : ℕ) (bytes : Cells)
    → o + 2 ≤ 0x20000
    → m.functions.0.base ≢ 0xA0000
    → m.screen.vga.seq_reg 2 % 2 ≡ 1
    → Returns
        (λ q. Wrote m o (get16 bytes 0) q.1)
        (handle_mmio (memory_devices m) true (0xA0000 + o) 2 bytes m)
unfolding mmio_write
write_word m o bytes room free mask =
    rw (window_device m o (omega arith) free, Returns, mmio_write)
      (go (writew m.screen (0xA0000 + o) (get16 bytes 0))
        (writew-Holds m.screen o (get16 bytes 0) room mask))
  where
    go :
        (w : Outcome Screen)
        → Returns (Holds m.screen o (get16 bytes 0)) w
        → Returns
            (λ (q : Cells × Machine). Wrote m o (get16 bytes 0) q.1)
            (w
              >>= (λ (s : Screen). ok (record m { screen = s }))
              >>= (λ (n : Machine). ok (pos 0, n))
              >>= λ (q : ℤ × Machine). elim q.0 [ pos zero ↦ ok (bytes, q.1) | _ ↦ abort ])
    go (ok s) h = (refl, h.0, h.1)
    go abort h = h
    go fault h = h
