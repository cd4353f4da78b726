-- ===== src/Vga/Palette.antt =====
-- devices/x86/vga/registers.c: the palette, 256 entries of three bytes behind one data port.
use kvmulate.Prelude.{
  ℕ, ◌+◌, ◌*◌, ◌%◌, ◌<◌, ◌≤◌, ◌≡◌, ◌≢◌, List, [], ◌∷◌, Outcome, ok, fault, ◌>>=◌, arith, Returns,
  update, length, ltb, Bool-cases, inl, inr, refl, sym, ◌∙◌,
}
use kvmulate.Vga.{Vga, vgareg_inb, vgareg_outb, palette_write, palette_read}

pub set_entry : ℕ → ℕ → ℕ → ℕ → Vga → Outcome Vga
set_entry i r g b v =
    vgareg_outb 0x3C0 8 i v
    >>= vgareg_outb 0x3C0 9 r
    >>= vgareg_outb 0x3C0 9 g
    >>= vgareg_outb 0x3C0 9 b

pub get_entry : ℕ → Vga → Outcome (ℕ × ℕ × ℕ)
get_entry i v = do
  v1 ← vgareg_outb 0x3C0 7 i v
  r ← vgareg_inb 0x3C0 9 v1
  g ← vgareg_inb 0x3C0 9 r.1
  b ← vgareg_inb 0x3C0 9 g.1
  ok (r.0, g.0, b.0)

abbrev entry_set : ℕ → ℕ → ℕ → ℕ → Vga → Vga
entry_set i r g b v = record v {
  pel = update (update (update v.pel (i * 3) r) (i * 3 + 1) g) (i * 3 + 2) b;
  pel_write_addr = i * 3 + 3;
}

set_entry_lem : (i r g b : ℕ) (v : Vga) → i < 256 → set_entry i r g b v ≡ ok (entry_set i r g b v)
unfolding set_entry vgareg_outb palette_write
set_entry_lem i r g b v small = ground arith

get_entry_lem :
    (i : ℕ) (v : Vga)
    → i < 256
    → get_entry i v ≡ ok (v.pel (i * 3), v.pel (i * 3 + 1), v.pel (i * 3 + 2))
unfolding get_entry vgareg_inb vgareg_outb palette_read
get_entry_lem i v small = ground arith

-- An entry of the palette reads as the three bytes that were written to it, and no other entry
-- changes.
pub get_entry-set_entry :
    (i j r g b : ℕ) (v : Vga)
    → i < 256
    → j < 256
    → Returns
        (λ w. (get_entry i w ≡ ok (r, g, b)) × (i ≢ j → get_entry j w ≡ get_entry j v))
        (set_entry i r g b v)
get_entry-set_entry i j r g b v hi hj = rw (set_entry_lem i r g b v hi) (
  get_entry_lem i (entry_set i r g b v) hi ∙ ground arith,
  λ other. get_entry_lem j (entry_set i r g b v) hj ∙ ground arith ∙ sym (get_entry_lem j v hj),
)

pub write_bytes : List ℕ → Vga → Outcome Vga
write_bytes [] v = ok v
write_bytes (b ∷ bs) v = vgareg_outb 0x3C0 9 b v >>= write_bytes bs

palette_full :
    (bs : List ℕ) (v : Vga)
    → v.pel_write_addr ≤ 768
    → 768 < v.pel_write_addr + length bs
    → write_bytes bs v ≡ fault
unfolding write_bytes vgareg_outb palette_write
palette_full [] v low many = absurd (omega arith)
palette_full (b ∷ bs) v low many = elim (Bool-cases (ltb v.pel_write_addr 768)) [
  | inl room ↦ rw room (
      palette_full bs
        (record v {
          pel = update v.pel v.pel_write_addr b;
          pel_write_addr = (v.pel_write_addr + 1) % 65536;
        })
        (ground arith) (ground arith))
  | inr full ↦ rw full refl
]

-- The write address is not compared with the end of the palette: from entry `i` on, one byte more
-- than the entries up to the last one hold is stored behind the palette.
pub palette_overflow :
    (i : ℕ) (bs : List ℕ) (v : Vga)
    → i < 256
    → 768 < 3 * i + length bs
    → (vgareg_outb 0x3C0 8 i v >>= write_bytes bs) ≡ fault
unfolding vgareg_outb
palette_overflow i bs v hi many = palette_full bs _ (omega arith) (omega arith)
