-- ===== src/Vga/Viewer.antt =====
-- devices/x86/vga/viewer.c: what the viewer's thread draws, and the keys that it injects. The surface
-- is the pixels of SDL's, a uint32 each, with its pitch in bytes. A write is checked against the 400
-- lines of the surface and a read of the VGA's memory against its plane.
pub mod Glyphs
pub mod Text
pub mod Graphics
pub mod Layout
pub mod Keys
use kvmulate.Prelude.{
  ℕ, zero, suc, ◌+◌, ◌-◌, ◌*◌, ◌/◌, ◌%◌, ◌^◌, bit_and, bit_or, Bool, Outcome, ok, ◌>>=◌, ltb, ◌==◌,
  if◌then◌else◌, Cells, fetch, store,
}
use kvmulate.Vga.{Vga}
use kvmulate.Vga.Ram.{Screen, plane_size}
use kvmulate.Vga.Font.{font8x16}

-- pScreen->pitch / 4, and pScreen->pixels.
pub record Surface : Type 0 where
  pub pitch : ℕ
  pub pixels : Cells

abbrev pub is_text_mode : Vga → Bool
is_text_mode v = bit_and (v.gcont_reg 0x06) 1 == 0

-- Three bytes of the palette as a colour of the surface.
unfoldable pub colour : Cells → ℕ → ℕ
colour pel col =
    bit_or (bit_or (pel (col + 0) * 2 ^ 18) (pel (col + 1) * 2 ^ 10)) (pel (col + 2) * 2 ^ 2)

abbrev pub lit : ℕ → ℕ → ℕ → Bool
lit ch y x = ltb 0 (bit_and (font8x16 ch y) (0x80 / 2 ^ x))

-- The colour of one pixel of a glyph.
unfoldable pub shade : ℕ → ℕ → ℕ → ℕ → ℕ → ℕ
shade ch fgcol bgcol y x = if lit ch y x then fgcol else bgcol

-- The loops over x and y of drawGlyphAt, with the rounds that are left. `at` is pFB.
unfoldable pub draw_columns : ℕ → ℕ → ℕ → ℕ → ℕ → ℕ → ℕ → ℕ → Cells → Outcome Cells
draw_columns size ch fgcol bgcol y zero x at pixels = ok pixels
draw_columns size ch fgcol bgcol y (suc n) x at pixels =
    store size pixels (at + x) (shade ch fgcol bgcol y x)
    >>= draw_columns size ch fgcol bgcol y n (x + 1) at

unfoldable pub draw_lines : ℕ → ℕ → ℕ → ℕ → ℕ → ℕ → ℕ → ℕ → Cells → Outcome Cells
draw_lines size pitch ch fgcol bgcol zero y at pixels = ok pixels
draw_lines size pitch ch fgcol bgcol (suc n) y at pixels =
    draw_columns size ch fgcol bgcol y 8 0 at pixels
    >>= draw_lines size pitch ch fgcol bgcol n (y + 1) (at + pitch)

-- attr / 16 keeps four bits of the byte.
unfoldable pub draw_glyph_at : ℕ → Cells → ℕ → ℕ → ℕ → ℕ → Cells → Outcome Cells
draw_glyph_at pitch pel ch attr sx sy pixels =
    draw_lines (pitch * 400) pitch ch (colour pel (attr % 16 * 3)) (colour pel (attr / 16 % 16 * 3))
      16 0 (sy * 16 * pitch + sx * 8) pixels

-- The start address of the CRT controller.
abbrev pub start_address : Vga → ℕ
start_address v = bit_or (v.crtc_reg 0xC * 2 ^ 8) (v.crtc_reg 0xD)

-- The loops of updateTextmode.
unfoldable pub text_cells : ℕ → Screen → ℕ → ℕ → ℕ → ℕ → Cells → Outcome Cells
text_cells pitch s vram_off zero x y pixels = ok pixels
text_cells pitch s vram_off (suc n) x y pixels =
    fetch plane_size (s.planes 0) (0x18000 + vram_off + (y * 80 + x) * 2 + 0) >>= λ ch.
    fetch plane_size (s.planes 0) (0x18000 + vram_off + (y * 80 + x) * 2 + 1) >>= λ attr.
    draw_glyph_at pitch s.vga.pel ch attr x y pixels >>= text_cells pitch s vram_off n (x + 1) y

unfoldable pub text_rows : ℕ → Screen → ℕ → ℕ → ℕ → Cells → Outcome Cells
text_rows pitch s vram_off zero y pixels = ok pixels
text_rows pitch s vram_off (suc n) y pixels =
    text_cells pitch s vram_off 80 0 y pixels >>= text_rows pitch s vram_off n (y + 1)

-- The loops leave x at 80, so that the cursor, which wants 128, is not drawn.
pub update_textmode : Screen → Surface → Outcome Surface
update_textmode s surface =
    text_rows surface.pitch s (start_address s.vga * 2) 25 0 surface.pixels >>= λ pixels.
    ok (record surface { pixels = pixels })

-- The four writes of updateGraphics at a point, in a surface of 640 pixels to the line.
unfoldable pub put_point : ℕ → ℕ → ℕ → ℕ → Cells → Outcome Cells
put_point size x y c pixels = store size pixels ((y * 2 + 0) * 640 + (x * 2 + 0)) c >>= λ p1.
    store size p1 ((y * 2 + 0) * 640 + (x * 2 + 1)) c >>= λ p2.
    store size p2 ((y * 2 + 1) * 640 + (x * 2 + 0)) c >>= λ p3.
    store size p3 ((y * 2 + 1) * 640 + (x * 2 + 1)) c

unfoldable pub graphics_points : ℕ → Screen → ℕ → ℕ → ℕ → ℕ → Cells → Outcome Cells
graphics_points size s o zero x y pixels = ok pixels
graphics_points size s o (suc n) x y pixels =
    fetch plane_size (s.planes (x % 4)) (y * 320 + x + o) >>= λ ci.
    put_point size x y (colour s.vga.pel (ci * 3)) pixels >>= graphics_points size s o n (x + 1) y

unfoldable pub graphics_lines : ℕ → Screen → ℕ → ℕ → ℕ → Cells → Outcome Cells
graphics_lines size s o zero y pixels = ok pixels
graphics_lines size s o (suc n) y pixels =
    graphics_points size s o 320 0 y pixels >>= graphics_lines size s o n (y + 1)

-- w and h are set to 320 and 200, whatever the registers say, so that the other branch is never taken.
pub update_graphics : Screen → Surface → Outcome Surface
update_graphics s surface =
    graphics_lines (surface.pitch * 400) s (start_address s.vga) 200 0 surface.pixels >>= λ pixels.
    ok (record surface { pixels = pixels })

-- One frame of the thread.
unfoldable pub draw_frame : Screen → Surface → Outcome Surface
unfolding update_textmode update_graphics
draw_frame s surface =
    if is_text_mode s.vga then update_textmode s surface else update_graphics s surface
