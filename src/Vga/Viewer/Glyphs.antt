-- ===== src/Vga/Viewer/Glyphs.antt =====
-- devices/x86/vga/viewer.c: the pixels that drawGlyphAt sets, in a surface of 640 pixels to the line.
use kvmulate.Prelude.{
  ==_iff, ◌^◌, IsBytes, bit_and, bit_or, refl, ℕ, zero, suc, ◌+◌, ◌-◌, ◌*◌, ◌/◌, ◌%◌, ◌<◌, ◌≤◌, ◌≡◌,
  ap, ◌∙◌, fun_ext, true, ◌&&◌, ok, ltb, leb, ◌==◌, if◌then◌else◌, Cells, update, store, arith,
}
use kvmulate.Prelude.Bytes.{every, every_lem}
use native.Mathlib.Nat.{one-le-pow}
use kvmulate.Prelude.Bits.{or_fields, and_split, and_mask, bit_and-zero}
use kvmulate.Vga.Font.{font8x16}
use kvmulate.Vga.Viewer.{lit, shade, colour, draw_columns, draw_lines, draw_glyph_at}

-- The pixels of a surface of 640 times 400.
abbrev pub screen_size : ℕ
screen_size = 256000

module _ (ch fgcol bgcol : ℕ) where
  pub store_in :
      (pixels : Cells) (i v : ℕ)
      → i < screen_size
      → store screen_size pixels i v ≡ ok (update pixels i v)
  store_in pixels i v h = let t : ltb i screen_size ≡ true = ground arith in rw t

  columns_step :
      (y n x at : ℕ) (pixels : Cells) (j : ℕ)
      → (if leb (at + (x + 1)) j && ltb j (at + (x + 1) + n)
          then shade ch fgcol bgcol y (j - at)
          else update pixels (at + x) (shade ch fgcol bgcol y x) j)
        ≡ (if leb (at + x) j && ltb j (at + x + suc n)
            then shade ch fgcol bgcol y (j - at)
            else pixels j)
  columns_step y n x at pixels j = ground arith

  lines_step :
      (n y at : ℕ) (pixels : Cells) (j : ℕ)
      → (if leb (at + 640) j && ltb (j - (at + 640)) (n * 640) && ltb ((j - (at + 640)) % 640) 8
          then shade ch fgcol bgcol (y + 1 + (j - (at + 640)) / 640) ((j - (at + 640)) % 640)
          else if leb (at + 0) j && ltb j (at + 0 + 8)
          then shade ch fgcol bgcol y (j - at)
          else pixels j)
        ≡ (if leb at j && ltb (j - at) (suc n * 640) && ltb ((j - at) % 640) 8
            then shade ch fgcol bgcol (y + (j - at) / 640) ((j - at) % 640)
            else pixels j)
  lines_step n y at pixels j = ground arith

  columns_lem :
      (y n x at : ℕ) (pixels : Cells)
      → at + x + n ≤ screen_size
      → draw_columns screen_size ch fgcol bgcol y n x at pixels
        ≡ ok (λ j.
          if leb (at + x) j && ltb j (at + x + n)
          then shade ch fgcol bgcol y (j - at)
          else pixels j)
  unfolding draw_columns
  columns_lem y zero x at pixels h = ap ok (fun_ext (λ j. ground arith))
  columns_lem y (suc n) x at pixels h =
      let painted = update pixels (at + x) (shade ch fgcol bgcol y x) in
      rw (store_in pixels (at + x) (shade ch fgcol bgcol y x) (omega arith)) (
        columns_lem y n (x + 1) at painted (omega arith)
        ∙ ap ok (fun_ext (λ j. columns_step y n x at pixels j)))

  -- Lines `y` to `y + n - 1` of the glyph, from the pixel `at` on, which is in one of the first 632
  -- pixels of its line.
  lines_lem :
      (n y at : ℕ) (pixels : Cells)
      → at % 640 ≤ 632
      → at + n * 640 ≤ screen_size + 632
      → draw_lines screen_size 640 ch fgcol bgcol n y at pixels
        ≡ ok (λ j.
          if leb at j && ltb (j - at) (n * 640) && ltb ((j - at) % 640) 8
          then shade ch fgcol bgcol (y + (j - at) / 640) ((j - at) % 640)
          else pixels j)
  unfolding draw_lines
  lines_lem zero y at pixels h k = ap ok (fun_ext (λ j. ground arith))
  lines_lem (suc n) y at pixels h k = rw (columns_lem y 8 0 at pixels (omega arith)) (
      lines_lem n (y + 1) (at + 640)
        (λ j.
          if leb (at + 0) j && ltb j (at + 0 + 8)
          then shade ch fgcol bgcol y (j - at)
          else pixels j)
        (omega arith) (omega arith)
      ∙ ap ok (fun_ext (λ j. lines_step n y at pixels j)))

-- The colour of the number `c`: red, green and blue of six bits each in the palette, and of eight in
-- the surface.
unfoldable pub rgb : Cells → ℕ → ℕ
rgb pel c = pel (c * 3) * 2 ^ 18 + pel (c * 3 + 1) * 2 ^ 10 + pel (c * 3 + 2) * 2 ^ 2

-- The pixel `j` of the surface in a cell with the character `ch` and the attribute `attr`: the font's
-- byte for its line has the leftmost pixel in its highest bit; where the bit is set, the colour is
-- that of the lower half of the attribute, and where it is not, that of the upper half.
unfoldable pub glyph_pixel : Cells → ℕ → ℕ → ℕ → ℕ
glyph_pixel pel ch attr j =
    if font8x16 ch (j / 640 % 16) / 2 ^ (7 - j % 8) % 2 == 1
    then rgb pel (attr % 16)
    else rgb pel (attr / 16 % 16)

colour-rgb : (pel : Cells) (c : ℕ) → IsBytes pel → colour pel (c * 3) ≡ rgb pel c
unfolding colour rgb
colour-rgb pel c bytes =
    let red = pel (c * 3) in
    let green = pel (c * 3 + 1) in
    let blue = pel (c * 3 + 2) in
    let sum : red * 2 ^ 18 + green * 2 ^ 10 ≡ (red * 2 ^ 8 + green) * 2 ^ 10 = omega arith in
    let join = λ (t : ℕ). bit_or t (blue * 2 ^ 2) in
    ap (λ (i : ℕ). join (bit_or (pel i * 2 ^ 18) (green * 2 ^ 10))) (omega arith)
    ∙ ap join (or_fields 18 red (green * 2 ^ 10) (omega (arith, bytes (c * 3 + 1))) ∙ sum)
    ∙ or_fields 10 (red * 2 ^ 8 + green) (blue * 2 ^ 2) (omega (arith, bytes (c * 3 + 2)))
    ∙ omega arith

single_bit : (k b : ℕ) → bit_and b (1 * 2 ^ k + 0) ≡ b / 2 ^ k % 2 * 2 ^ k
single_bit k b =
    and_split k b 1 0 (one-le-pow k 2 (omega arith))
    ∙ ap (λ (t : ℕ). bit_and (b / 2 ^ k) 1 * 2 ^ k + t) (bit_and-zero (b % 2 ^ k))
    ∙ ap (λ (t : ℕ). t * 2 ^ k + 0) (and_mask 1 (b / 2 ^ k))
    ∙ omega arith

is_set : (r p : ℕ) → r < 2 → 0 < p → ltb 0 (r * p) ≡ (r == 1)
is_set zero p h q = ground arith
is_set (suc zero) p h q = ground arith
is_set (suc (suc r)) p h q = absurd (omega arith)

masks_table : every 8 (λ i. 0x80 / 2 ^ i == 1 * 2 ^ (7 - i) + 0) ≡ true
unfolding every
masks_table = refl

lit-bit : (ch y x : ℕ) → x < 8 → lit ch y x ≡ (font8x16 ch y / 2 ^ (7 - x) % 2 == 1)
lit-bit ch y x small =
    let b = font8x16 ch y in
    let k = 7 - x in
    let mask : 0x80 / 2 ^ x ≡ 1 * 2 ^ k + 0 =
      (==_iff _ _).0 (every_lem 8 (λ i. 0x80 / 2 ^ i == 1 * 2 ^ (7 - i) + 0) x masks_table small) in
    ap (λ (p : ℕ). ltb 0 (bit_and b p)) mask
    ∙ ap (ltb 0) (single_bit k b)
    ∙ is_set (b / 2 ^ k % 2) (2 ^ k) (omega arith) (one-le-pow k 2 (omega arith))

shade-glyph_pixel :
    (pel : Cells) (ch attr j : ℕ)
    → IsBytes pel
    → shade ch (colour pel (attr % 16 * 3)) (colour pel (attr / 16 % 16 * 3)) (j / 640 % 16) (j % 8)
      ≡ glyph_pixel pel ch attr j
unfolding shade glyph_pixel
shade-glyph_pixel pel ch attr j bytes =
    rw
      (
        lit-bit ch (j / 640 % 16) (j % 8) (omega arith),
        colour-rgb pel (attr % 16) bytes,
        colour-rgb pel (attr / 16 % 16) bytes,
      )
      refl

glyph_step :
    (ch fgcol bgcol sx sy : ℕ) (pixels : Cells) (j : ℕ)
    → sx < 80
    → (if leb (sy * 16 * 640 + sx * 8) j
          && ltb (j - (sy * 16 * 640 + sx * 8)) (16 * 640)
          && ltb ((j - (sy * 16 * 640 + sx * 8)) % 640) 8
        then shade ch fgcol bgcol
            (0 + (j - (sy * 16 * 640 + sx * 8)) / 640)
            ((j - (sy * 16 * 640 + sx * 8)) % 640)
        else pixels j)
      ≡ (if j / 10240 == sy && j % 640 / 8 == sx
          then shade ch fgcol bgcol (j / 640 % 16) (j % 8)
          else pixels j)
glyph_step ch fgcol bgcol sx sy pixels j h = ground arith

-- drawGlyphAt sets the pixels of its cell, of 8 times 16, and no others.
pub draw_glyph_at_lem :
    (pel : Cells) (ch attr sx sy : ℕ) (pixels : Cells)
    → IsBytes pel
    → sx < 80
    → sy < 25
    → draw_glyph_at 640 pel ch attr sx sy pixels
      ≡ ok (λ j.
        if j / 10240 == sy && j % 640 / 8 == sx then glyph_pixel pel ch attr j else pixels j)
unfolding draw_glyph_at
draw_glyph_at_lem pel ch attr sx sy pixels bytes h k =
    let fgcol = colour pel (attr % 16 * 3) in
    let bgcol = colour pel (attr / 16 % 16 * 3) in
    lines_lem ch fgcol bgcol 16 0 (sy * 16 * 640 + sx * 8) pixels (omega arith) (omega arith)
    ∙ ap ok (
        fun_ext (λ j.
          glyph_step ch fgcol bgcol sx sy pixels j h
          ∙ ap (λ (v : ℕ). if j / 10240 == sy && j % 640 / 8 == sx then v else pixels j)
              (shade-glyph_pixel pel ch attr j bytes)))
