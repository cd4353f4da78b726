-- ===== src/Vga/Viewer/Graphics.antt =====
-- devices/x86/vga/viewer.c: the whole surface after updateGraphics.
use kvmulate.Prelude.{
  ℕ, zero, suc, ◌+◌, ◌*◌, ◌/◌, ◌%◌, ◌<◌, ◌≤◌, ◌≡◌, ap, ◌∙◌, fun_ext, true, ◌&&◌, ok, ltb, leb, ◌==◌,
  if◌then◌else◌, Cells, update, fetch, arith,
}
use kvmulate.Vga.Ram.{Screen, plane_size}
use kvmulate.Vga.Viewer.{
  colour, put_point, graphics_points, graphics_lines, update_graphics, start_address,
}
use kvmulate.Vga.Viewer.Glyphs.{screen_size, store_in}

module _ (s : Screen) (o : ℕ) where
  -- The pixel `j`: each point of 320 times 200 is shown as a square of four, and the planes take turns
  -- from column to column, at the same place each.
  pub graphics_pixel : ℕ → ℕ
  graphics_pixel j =
      colour s.vga.pel (s.planes (j % 640 / 2 % 4) (j / 1280 * 320 + j % 640 / 2 + o) * 3)

  fetch_in : (p i : ℕ) → i < 0x20000 → fetch plane_size (s.planes p) i ≡ ok (s.planes p i)
  fetch_in p i h = let t : ltb i plane_size ≡ true = ground arith in rw t

  point_step :
      (x y c : ℕ) (pixels : Cells) (j : ℕ)
      → x < 320
      → update
          (update
            (update
              (update pixels ((y * 2 + 0) * 640 + (x * 2 + 0)) c)
              ((y * 2 + 0) * 640 + (x * 2 + 1))
              c)
            ((y * 2 + 1) * 640 + (x * 2 + 0))
            c)
          ((y * 2 + 1) * 640 + (x * 2 + 1))
          c
          j
        ≡ (if j / 1280 == y && j % 640 / 2 == x then c else pixels j)
  point_step x y c pixels j h = ground arith

  put_point_lem :
      (x y c : ℕ) (pixels : Cells)
      → x < 320
      → y < 200
      → put_point screen_size x y c pixels
        ≡ ok (λ j. if j / 1280 == y && j % 640 / 2 == x then c else pixels j)
  unfolding put_point
  put_point_lem x y c pixels h k =
      let i1 = (y * 2 + 0) * 640 + (x * 2 + 0) in
      let i2 = (y * 2 + 0) * 640 + (x * 2 + 1) in
      let i3 = (y * 2 + 1) * 640 + (x * 2 + 0) in
      let i4 = (y * 2 + 1) * 640 + (x * 2 + 1) in
      let p1 = update pixels i1 c in
      let p2 = update p1 i2 c in
      let p3 = update p2 i3 c in
      rw
        (
          store_in 0 0 0 pixels i1 c (omega arith),
          store_in 0 0 0 p1 i2 c (omega arith),
          store_in 0 0 0 p2 i3 c (omega arith),
          store_in 0 0 0 p3 i4 c (omega arith),
        )
        (ap ok (fun_ext (λ j. point_step x y c pixels j h)))

  points_step :
      (n x y : ℕ) (pixels : Cells) (j : ℕ)
      → (if j / 1280 == y && leb (x + 1) (j % 640 / 2) && ltb (j % 640 / 2) (x + 1 + n)
          then graphics_pixel j
          else if j / 1280 == y && j % 640 / 2 == x
          then colour s.vga.pel (s.planes (x % 4) (y * 320 + x + o) * 3)
          else pixels j)
        ≡ (if j / 1280 == y && leb x (j % 640 / 2) && ltb (j % 640 / 2) (x + suc n)
            then graphics_pixel j
            else pixels j)
  unfolding graphics_pixel
  points_step n x y pixels j = ground arith

  module _ (room : o < 0x10000) where
    points_lem :
        (n x y : ℕ) (pixels : Cells)
        → x + n ≤ 320
        → y < 200
        → graphics_points screen_size s o n x y pixels
          ≡ ok (λ j.
            if j / 1280 == y && leb x (j % 640 / 2) && ltb (j % 640 / 2) (x + n)
            then graphics_pixel j
            else pixels j)
    unfolding graphics_points
    points_lem zero x y pixels h k = ap ok (fun_ext (λ j. ground arith))
    points_lem (suc n) x y pixels h k =
        rw
          (
            fetch_in (x % 4) (y * 320 + x + o) (omega arith),
            put_point_lem x y (colour s.vga.pel (s.planes (x % 4) (y * 320 + x + o) * 3)) pixels
                (omega arith) k,
          )
          (points_lem n (x + 1) y
              (λ j.
                if j / 1280 == y && j % 640 / 2 == x
                then colour s.vga.pel (s.planes (x % 4) (y * 320 + x + o) * 3)
                else pixels j)
              (omega arith) k
            ∙ ap ok (fun_ext (λ j. points_step n x y pixels j)))

    rows_step :
        (n y : ℕ) (pixels : Cells) (j : ℕ)
        → (if leb (y + 1) (j / 1280) && ltb (j / 1280) (y + 1 + n)
            then graphics_pixel j
            else if j / 1280 == y && leb 0 (j % 640 / 2) && ltb (j % 640 / 2) (0 + 320)
            then graphics_pixel j
            else pixels j)
          ≡ (if leb y (j / 1280) && ltb (j / 1280) (y + suc n) then graphics_pixel j else pixels j)
    rows_step n y pixels j = ground arith

    rows_lem :
        (n y : ℕ) (pixels : Cells)
        → y + n ≤ 200
        → graphics_lines screen_size s o n y pixels
          ≡ ok (λ j.
            if leb y (j / 1280) && ltb (j / 1280) (y + n) then graphics_pixel j else pixels j)
    unfolding graphics_lines
    rows_lem zero y pixels h = ap ok (fun_ext (λ j. ground arith))
    rows_lem (suc n) y pixels h = rw (points_lem 320 0 y pixels (omega arith) (omega arith)) (
        rows_lem n (y + 1)
          (λ j.
            if j / 1280 == y && leb 0 (j % 640 / 2) && ltb (j % 640 / 2) (0 + 320)
            then graphics_pixel j
            else pixels j)
          (omega arith)
        ∙ ap ok (fun_ext (λ j. rows_step n y pixels j)))

-- In graphics mode, on a surface of 640 pixels to the line: whatever the registers say of the
-- resolution, each of the 256000 pixels gets the palette's colour for a byte of one of the four
-- planes, the column's number modulo 4, and nothing behind them is written. The byte is the one at
-- the start address, below 64 KB, plus 320 for each line and 1 for each column, where two lines and
-- two columns of the surface share a point.
pub update_graphics_lem :
    (s : Screen) (pixels : Cells)
    → start_address s.vga < 0x10000
    → update_graphics s (record { pitch = 640; pixels = pixels })
      ≡ ok (record {
        pitch = 640;
        pixels = λ j. if ltb j 256000 then graphics_pixel s (start_address s.vga) j else pixels j;
      })
unfolding update_graphics
update_graphics_lem s pixels h =
    rw (rows_lem s (start_address s.vga) h 200 0 pixels (omega arith))
      (ap (λ (p : Cells). ok (record { pitch = 640; pixels = p })) (fun_ext (λ j. whole j)))
  where
    whole :
        (j : ℕ)
        → (if leb 0 (j / 1280) && ltb (j / 1280) (0 + 200)
            then graphics_pixel s (start_address s.vga) j
            else pixels j)
          ≡ (if ltb j 256000 then graphics_pixel s (start_address s.vga) j else pixels j)
    whole j = ground arith
