-- ===== src/Vga/Viewer/Text.antt =====
-- devices/x86/vga/viewer.c: the whole surface after updateTextmode.
use kvmulate.Prelude.{
  IsBytes, ℕ, zero, suc, ◌+◌, ◌*◌, ◌/◌, ◌%◌, ◌<◌, ◌≤◌, ◌≡◌, ap, ◌∙◌, fun_ext, true, ◌&&◌, ok, ltb,
  leb, ◌==◌, if◌then◌else◌, Cells, fetch, arith,
}
use kvmulate.Vga.Ram.{Screen, plane_size}
use kvmulate.Vga.Viewer.{text_cells, text_rows, update_textmode, start_address}
use kvmulate.Vga.Viewer.Glyphs.{glyph_pixel, draw_glyph_at_lem}

module _ (s : Screen) (off : ℕ) where
  -- The character and the attribute of the cell at column `x` of row `y`.
  abbrev pub char_at : ℕ → ℕ → ℕ
  char_at x y = s.planes 0 (0x18000 + off + (y * 80 + x) * 2 + 0)

  abbrev pub attr_at : ℕ → ℕ → ℕ
  attr_at x y = s.planes 0 (0x18000 + off + (y * 80 + x) * 2 + 1)

  -- The pixel `j` of the text.
  unfoldable pub text_pixel : ℕ → ℕ
  text_pixel j =
      glyph_pixel s.vga.pel (char_at (j % 640 / 8) (j / 10240)) (attr_at (j % 640 / 8) (j / 10240))
        j

  fetch_in : (i : ℕ) → i < 0x20000 → fetch plane_size (s.planes 0) i ≡ ok (s.planes 0 i)
  fetch_in i h = let t : ltb i plane_size ≡ true = ground arith in rw t

  cells_step :
      (n x y : ℕ) (pixels : Cells) (j : ℕ)
      → (if j / 10240 == y && leb (x + 1) (j % 640 / 8) && ltb (j % 640 / 8) (x + 1 + n)
          then text_pixel j
          else if j / 10240 == y && j % 640 / 8 == x
          then glyph_pixel s.vga.pel (char_at x y) (attr_at x y) j
          else pixels j)
        ≡ (if j / 10240 == y && leb x (j % 640 / 8) && ltb (j % 640 / 8) (x + suc n)
            then text_pixel j
            else pixels j)
  unfolding text_pixel
  cells_step n x y pixels j = ground arith

  module _ (room : off + 0x18000 + 4000 ≤ 0x20000) (bytes : IsBytes s.vga.pel) where
    cells_lem :
        (n x y : ℕ) (pixels : Cells)
        → x + n ≤ 80
        → y < 25
        → text_cells 640 s off n x y pixels
          ≡ ok (λ j.
            if j / 10240 == y && leb x (j % 640 / 8) && ltb (j % 640 / 8) (x + n)
            then text_pixel j
            else pixels j)
    unfolding text_cells
    cells_lem zero x y pixels h k = ap ok (fun_ext (λ j. ground arith))
    cells_lem (suc n) x y pixels h k =
        rw
          (
            fetch_in (0x18000 + off + (y * 80 + x) * 2 + 0) (omega arith),
            fetch_in (0x18000 + off + (y * 80 + x) * 2 + 1) (omega arith),
            draw_glyph_at_lem s.vga.pel (char_at x y) (attr_at x y) x y pixels bytes (omega arith)
                k,
          )
          (cells_lem n (x + 1) y
              (λ j.
                if j / 10240 == y && j % 640 / 8 == x
                then glyph_pixel s.vga.pel (char_at x y) (attr_at x y) j
                else pixels j)
              (omega arith) k
            ∙ ap ok (fun_ext (λ j. cells_step n x y pixels j)))

    rows_step :
        (n y : ℕ) (pixels : Cells) (j : ℕ)
        → (if leb (y + 1) (j / 10240) && ltb (j / 10240) (y + 1 + n)
            then text_pixel j
            else if j / 10240 == y && leb 0 (j % 640 / 8) && ltb (j % 640 / 8) (0 + 80)
            then text_pixel j
            else pixels j)
          ≡ (if leb y (j / 10240) && ltb (j / 10240) (y + suc n) then text_pixel j else pixels j)
    rows_step n y pixels j = ground arith

    rows_lem :
        (n y : ℕ) (pixels : Cells)
        → y + n ≤ 25
        → text_rows 640 s off n y pixels
          ≡ ok
              (λ j. if leb y (j / 10240) && ltb (j / 10240) (y + n) then text_pixel j else pixels j)
    unfolding text_rows
    rows_lem zero y pixels h = ap ok (fun_ext (λ j. ground arith))
    rows_lem (suc n) y pixels h = rw (cells_lem 80 0 y pixels (omega arith) (omega arith)) (
        rows_lem n (y + 1)
          (λ j.
            if j / 10240 == y && leb 0 (j % 640 / 8) && ltb (j % 640 / 8) (0 + 80)
            then text_pixel j
            else pixels j)
          (omega arith)
        ∙ ap ok (fun_ext (λ j. rows_step n y pixels j)))

-- In text mode, on a surface of 640 pixels to the line: if the 4000 bytes of the text lie in the
-- plane, which they do up to a start address of 0x3830, and the palette holds bytes, then each of the 256000 pixels gets the
-- colour of its glyph's bit, for the character and the attribute that plane 0 holds for its cell,
-- and nothing behind them is written. The cursor is not drawn.
pub update_textmode_lem :
    (s : Screen) (pixels : Cells)
    → start_address s.vga ≤ 0x3830
    → IsBytes s.vga.pel
    → update_textmode s (record { pitch = 640; pixels = pixels })
      ≡ ok (record {
        pitch = 640;
        pixels = λ j. if ltb j 256000 then text_pixel s (start_address s.vga * 2) j else pixels j;
      })
unfolding update_textmode
update_textmode_lem s pixels h bytes =
    rw (rows_lem s (start_address s.vga * 2) (omega arith) bytes 25 0 pixels (omega arith))
      (ap (λ (p : Cells). ok (record { pitch = 640; pixels = p })) (fun_ext (λ j. whole j)))
  where
    whole :
        (j : ℕ)
        → (if leb 0 (j / 10240) && ltb (j / 10240) (0 + 25)
            then text_pixel s (start_address s.vga * 2) j
            else pixels j)
          ≡ (if ltb j 256000 then text_pixel s (start_address s.vga * 2) j else pixels j)
    whole j = ground arith
