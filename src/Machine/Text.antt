-- ===== src/Machine/Text.antt =====
-- system.c, mmio.c, devices/x86/vga/ram.c and viewer.c: text that the guest of the whole machine writes
-- to the VGA's window, and the frame that shows it.
use kvmulate.Prelude.{
  IsBytes, get_elem?, ℕ, zero, suc, ◌+◌, ◌*◌, ◌/◌, ◌%◌, ◌<◌, ◌≤◌, ◌≡◌, ◌≢◌, refl, ap, ◌∙◌, sym,
  true, false, ltb, leb, ◌-◌, List, [], ◌∷◌, Option, none, some, map, fun_ext, ok, arith, Cells,
  length, Returns, Returns->>=, Returns-map, if◌then◌else◌,
}
use mathlib.Core.Path.{subst, ap₂}
use native.Mathlib.Decide.{dec_lt}
use kvmulate.Ata.Words.{AllWords, put_words, put_words_below}
use kvmulate.System.Run.{VmExit, Loop, running, done, sys_run_vcpu}
use kvmulate.Vga.{Vga}
use kvmulate.Vga.Viewer.{is_text_mode, start_address, draw_frame}
use kvmulate.Vga.Viewer.Glyphs.{glyph_pixel}
use kvmulate.Vga.Viewer.Text.{text_pixel, update_textmode_lem}
use kvmulate.Machine.{Machine, port_table}
use kvmulate.Machine.Owners.{handler_of, registered}
use kvmulate.Machine.Ports.{of_table}
use kvmulate.Machine.Memory.{memory_devices, run_guest}
use kvmulate.Machine.Printing.{print_exits, Printed, print_lem, put_words_above, put_words_at}

get_elem?-none : (ws : List ℕ) (k : ℕ) → get_elem? ws k ≡ none → length ws ≤ k
get_elem?-none [] k e = omega arith
get_elem?-none (w ∷ ws) zero e = cc
get_elem?-none (w ∷ ws) (suc k) e = omega (arith, get_elem?-none ws k e)

-- The pixel `j` of a cell of the text in the plane `c`.
abbrev cell_pixel : Cells → Cells → ℕ → ℕ → ℕ → ℕ
cell_pixel pel c off i j =
    glyph_pixel pel (c (0x18000 + off + i * 2 + 0)) (c (0x18000 + off + i * 2 + 1)) j

abbrev pub cell_of : ℕ → ℕ
cell_of j = j / 10240 * 80 + j % 640 / 8

-- The pixel of a text that the words `ws` stand in from `cell` on: a word is a character and its
-- attribute.
abbrev pub word_pixel : Cells → ℕ → ℕ → Option ℕ → ℕ
word_pixel pel old j none = old
word_pixel pel old j (some v) = glyph_pixel pel (v % 256) (v / 256) j

abbrev pub shown_pixel : Machine → ℕ → List ℕ → ℕ → ℕ
shown_pixel m cell ws j =
    let old : ℕ = text_pixel m.screen (start_address m.screen.vga * 2) j in
    if leb cell (cell_of j)
    then word_pixel m.screen.vga.pel old j (get_elem? ws (cell_of j - cell))
    else old

module _ (pel a : Cells) (off cell j : ℕ) (ws : List ℕ) (words : AllWords ws) where
  abbrev stored : Cells
  stored = put_words a (0x18000 + off + cell * 2) ws

  same_cell :
      (i : ℕ)
      → stored (0x18000 + off + i * 2 + 0) ≡ a (0x18000 + off + i * 2 + 0)
      → stored (0x18000 + off + i * 2 + 1) ≡ a (0x18000 + off + i * 2 + 1)
      → cell_pixel pel stored off i j ≡ cell_pixel pel a off i j
  same_cell i low high = rw (low, high) refl

  cell_below : (i : ℕ) → i < cell → cell_pixel pel stored off i j ≡ cell_pixel pel a off i j
  cell_below i h =
      same_cell i
        (put_words_below ws a (0x18000 + off + cell * 2) (0x18000 + off + i * 2 + 0) (omega arith))
        (put_words_below ws a (0x18000 + off + cell * 2) (0x18000 + off + i * 2 + 1) (omega arith))

  cell_from :
      (i k : ℕ) (o : Option ℕ)
      → i ≡ cell + k
      → get_elem? ws k ≡ o
      → cell_pixel pel stored off i j ≡ word_pixel pel (cell_pixel pel a off i j) j o
  cell_from i k none e at =
      let past = get_elem?-none ws k at in
      same_cell i
        (put_words_above ws a (0x18000 + off + cell * 2) (0x18000 + off + i * 2 + 0)
          (omega (arith, past)))
        (put_words_above ws a (0x18000 + off + cell * 2) (0x18000 + off + i * 2 + 1)
          (omega (arith, past)))
  cell_from i k (some v) e at =
      let bytes =
        put_words_at ws a (0x18000 + off + cell * 2) k (0x18000 + off + i * 2 + 0)
          (0x18000 + off + i * 2 + 1) v at words (omega arith) (omega arith) in
      ap₂ (λ (ch attr : ℕ). glyph_pixel pel ch attr j) bytes.0 bytes.1

  cell_lem :
      (i : ℕ)
      → cell_pixel pel stored off i j ≡ (
          if leb cell i
          then word_pixel pel (cell_pixel pel a off i j) j (get_elem? ws (i - cell))
          else cell_pixel pel a off i j)
  cell_lem i = elim (dec_lt i cell) [
    | yes low ↦ let t : leb cell i ≡ false = ground arith in rw t (cell_below i low)
    | no high ↦
        let t : leb cell i ≡ true = ground arith in
        rw t (cell_from i (i - cell) (get_elem? ws (i - cell)) (omega arith) refl)
  ]

-- The frame drawn after a guest's exits.
abbrev pub Shows : Cells → (ℕ → ℕ) → Loop Machine → Type 0
Shows pixels shown (running pages n) =
    draw_frame n.screen (record { pitch = 640; pixels = pixels })
    ≡ ok (record { pitch = 640; pixels = λ j. if ltb j 256000 then shown j else pixels j })
Shows pixels shown (done pages n) = ⊥

frame_pixel :
    (m n : Machine) (cell j : ℕ) (ws : List ℕ)
    → AllWords ws
    → n.screen.vga ≡ m.screen.vga
    → n.screen.planes 0
      ≡ put_words (m.screen.planes 0) (0x18000 + start_address m.screen.vga * 2 + cell * 2) ws
    → text_pixel n.screen (start_address n.screen.vga * 2) j ≡ shown_pixel m cell ws j
unfolding text_pixel
frame_pixel m n cell j ws words vga planes =
    ap₂ (λ (v : Vga) (c : Cells). cell_pixel v.pel c (start_address v * 2) (cell_of j) j) vga planes
    ∙ cell_lem m.screen.vga.pel (m.screen.planes 0) (start_address m.screen.vga * 2) cell j ws words
        (cell_of j)

Printed-Shows :
    (m : Machine) (cell : ℕ) (ws : List ℕ) (pixels : Cells) (l : Loop Machine)
    → is_text_mode m.screen.vga ≡ true
    → start_address m.screen.vga ≤ 0x3830
    → IsBytes m.screen.vga.pel
    → AllWords ws
    → Printed m (0x18000 + start_address m.screen.vga * 2 + cell * 2) ws l
    → Shows pixels (shown_pixel m cell ws) l
unfolding draw_frame
Printed-Shows m cell ws pixels (running pages n) text low colours words printed =
    let mode : is_text_mode n.screen.vga ≡ true = ap is_text_mode printed.1 ∙ text in
    let room : start_address n.screen.vga ≤ 0x3830 =
      subst (λ (v : Vga). start_address v ≤ 0x3830) (sym printed.1) low in
    let palette : IsBytes n.screen.vga.pel =
      subst (λ (v : Vga). IsBytes v.pel) (sym printed.1) colours in
    rw mode (
      update_textmode_lem n.screen pixels room palette
      ∙ ap
          (λ (f : Cells).
            ok (record { pitch = 640; pixels = λ j. if ltb j 256000 then f j else pixels j }))
          (fun_ext (λ j. frame_pixel m n cell j ws words printed.1 printed.2)))
Printed-Shows m cell ws pixels (done pages n) text low colours words printed = printed

-- A guest of the whole machine in text mode, which has not put the VGA's ROM over the window and
-- whose map mask has plane 0, writes words to the cells of the screen from `cell` on, by one exit
-- each. The start address is at most 0x3830, so that the text lies in the plane, and the palette
-- holds bytes. The loop goes on, and the next frame, on a surface of 640 pixels to the line, shows for
-- each of those cells the glyph of the word's lower byte, a bit of the font's row for each pixel from
-- the left, the highest bit first: in the colour that the lower four bits of the attribute have in the
-- palette where it is set, and in that of the upper four where it is not. Every other cell shows what
-- its bytes in plane 0 showed before.
pub text_shown :
    (m : Machine) (cell : ℕ) (ws : List ℕ) (pixels : Cells)
    → m.functions.0.base ≢ 0xA0000
    → m.screen.vga.seq_reg 2 % 2 ≡ 1
    → is_text_mode m.screen.vga ≡ true
    → start_address m.screen.vga ≤ 0x3830
    → IsBytes m.screen.vga.pel
    → cell + length ws ≤ 2000
    → AllWords ws
    → Returns
        (Shows pixels (shown_pixel m cell ws))
        (run_guest (print_exits (0xB8000 + start_address m.screen.vga * 2 + cell * 2) ws) m)
unfolding run_guest
text_shown m cell ws pixels free mask text low colours room words =
    let off : ℕ = 0x18000 + start_address m.screen.vga * 2 + cell * 2 in
    let es : List VmExit = print_exits (0xB8000 + start_address m.screen.vga * 2 + cell * 2) ws in
    let moved : 0xA0000 + off ≡ 0xB8000 + start_address m.screen.vga * 2 + cell * 2 = omega arith in
    Returns->>=
      (λ hs. Returns (Shows pixels (shown_pixel m cell ws)) (sys_run_vcpu hs memory_devices es m))
      (Shows pixels (shown_pixel m cell ws)) port_table (λ hs. sys_run_vcpu hs memory_devices es m)
      (of_table
        (λ hs. Returns (Shows pixels (shown_pixel m cell ws)) (sys_run_vcpu hs memory_devices es m))
        (Returns-map (Printed m off ws) (Shows pixels (shown_pixel m cell ws))
          (sys_run_vcpu (map handler_of registered) memory_devices es m)
          (subst
            (λ (a : ℕ).
              Returns (Printed m off ws)
                (sys_run_vcpu (map handler_of registered) memory_devices (print_exits a ws) m))
            moved (print_lem (map handler_of registered) ws m off (omega arith) free mask words))
          (λ l printed. Printed-Shows m cell ws pixels l text low colours words printed)))
      (λ hs h. h)
