-- ===== src/Tests/Viewer.antt =====
-- devices/x86/vga/viewer.c: a text, a picture and a key.
use kvmulate.Prelude.{
  IsBytes, IfReturns, ◌≡◌, ℕ, ◌≢◌, List, some, refl, true, [], ◌∷◌, Returns, ok, ltb, if◌then◌else◌,
  zeros, update, arith,
}
use kvmulate.Prelude.Int.{pos}
use kvmulate.I8042.{Regs, x86_keyboard_init}
use kvmulate.Vga.{start}
use kvmulate.Vga.Ram.{Screen}
use kvmulate.Vga.Font.{font8x16, get_or}
use kvmulate.Vga.Font.Low.{glyphs_0, glyphs_1}
use kvmulate.Vga.Font.High.{glyphs_2, glyphs_3}
use kvmulate.Vga.Viewer.{start_address, update_graphics}
use kvmulate.Vga.Rom.{x86_vga_rom_init}
use mathlib.Core.Option
use kvmulate.Io.{io_inb}
use kvmulate.Io.Parts.{Access, outb, inb, performs}
use kvmulate.Vga.Viewer.Layout.{seen_as}
use kvmulate.Vga.Viewer.Keys.{key_event, guest_key}
use kvmulate.Machine.{Machine, port_table}
use kvmulate.Machine.Components.{Component}
use kvmulate.Machine.Keys.{on_event, key_delivered}
use kvmulate.Machine.Memory.{run_guest}
use kvmulate.Machine.Printing.{print_exits}
use kvmulate.Machine.Text.{Shows, shown_pixel, text_shown}
use kvmulate.Tests.Table.{machine}
use kvmulate.Vga.Viewer.Graphics.{graphics_pixel, update_graphics_lem}
use kvmulate.Vga.Viewer.Keys.{Typed, scancode_of, keys, handle_event_lem}

-- The first cell holds a white A on blue.
abbrev screen : Screen
screen = record {
  vga = record start { pel = update (update zeros 5 42) 47 63 };
  planes = λ p. update (update zeros 0x18000 0x41) 0x18001 0x1F;
}

abbrev at_prompt : Machine
at_prompt = record machine {
  screen = record screen { vga = record screen.vga { seq_reg = update zeros 2 3 } };
}

palette-IsBytes : IsBytes screen.vga.pel
palette-IsBytes i = ground arith

-- "Hi" in white on blue, at the end of the first line.
text_shown_example :
    Returns
      (Shows zeros (shown_pixel at_prompt 78 (0x1F48 ∷ 0x1F69 ∷ [])))
      (run_guest (print_exits 0xB809C (0x1F48 ∷ 0x1F69 ∷ [])) at_prompt)
unfolding x86_vga_rom_init
text_shown_example =
    text_shown at_prompt 78 (0x1F48 ∷ 0x1F69 ∷ []) zeros (omega arith) refl refl (omega arith)
      palette-IsBytes (omega arith) (omega arith, (omega arith, tt))

update_graphics_lem_example :
    update_graphics screen (record { pitch = 640; pixels = zeros })
    ≡ ok (record {
      pitch = 640;
      pixels = λ j. if ltb j 256000 then graphics_pixel screen (start_address screen.vga) j else 0;
    })
update_graphics_lem_example = update_graphics_lem screen zeros (omega arith)

-- The third row of the letter A.
letter : font8x16 0x41 2 ≡ 16
unfolding font8x16 get_or glyphs_0 glyphs_1 glyphs_2 glyphs_3
letter = refl

abbrev controller : Regs
controller = record {
  status = 0;
  command_byte = 0;
  buf_output = zeros;
  ndx_output = pos 0;
  cmdparams = zeros;
  cmdparams_left = 0;
  cmdparams_cmd = 0;
  kbdparams = zeros;
  kbdparams_left = 0;
  kbdparams_cmd = 0;
  control = 0;
  calls = [];
}

-- The key of F12.
handle_event_lem_example : Typed true 293 controller (scancode_of 293 keys)
handle_event_lem_example = handle_event_lem true 293 controller (omega arith)

-- The guest asks the clock for the seconds before it reads the key, F12, whose code is that
-- of the scroll lock.
abbrev seconds : List Access
seconds = outb 0x70 0 ∷ inb 0x71 ∷ []

clock-ne-keyboard :
    ◌≢◌ {A = Option.Option Component} (some Component.clock) (some Component.keyboard)
clock-ne-keyboard e = cc

key_delivered_example :
    Returns
      (λ table.
        Returns
          (λ n.
            IfReturns
              (λ (q : List ℕ × Machine).
                Returns (λ p. guest_key p.0 ≡ some (302, true)) (io_inb table 0x60 q.1))
              (performs table seconds n))
          (on_event (key_event true 293) machine))
      port_table
unfolding x86_keyboard_init seen_as
key_delivered_example =
    key_delivered true 293 0x46 seconds machine refl (omega arith)
      (omega arith, clock-ne-keyboard, (omega arith, clock-ne-keyboard, tt))
