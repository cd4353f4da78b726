-- ===== src/Vga/Viewer/Layout.antt =====
-- Scan code set 1, which devices/x86/i8042.c names: the code of a key is its number on the keyboard, row
-- by row. The keys are written as SDL's numbers.
use kvmulate.Prelude.{ℕ, List, [], ◌∷◌, ◌==◌, if◌then◌else◌}

-- The keys in the order of their codes, from 0, which no key has. 8 is backspace, 9 tab, 13 return, 27
-- escape and 32 space; 256 to 266 are the digits and the point of the number pad, 268 its `*`,
-- 269 `-` and 270 `+`; 282 to 291 F1 to F10; 300 to 302 the locks for numbers, capitals and
-- scrolling; 303 and 304 the right and the left shift, 306 the left control and 308 the left alt.
unfoldable pub set_1 : List ℕ
set_1 =
    0 ∷ 27 ∷ b'1' ∷ b'2' ∷ b'3' ∷ b'4' ∷ b'5' ∷ b'6' ∷ b'7' ∷ b'8' ∷ b'9' ∷ b'0' ∷ b'-' ∷ b'=' ∷ 8
    ∷ 9 ∷ b'q' ∷ b'w' ∷ b'e' ∷ b'r' ∷ b't' ∷ b'y' ∷ b'u' ∷ b'i' ∷ b'o' ∷ b'p' ∷ b'[' ∷ b']' ∷ 13
    ∷ 306 ∷ b'a' ∷ b's' ∷ b'd' ∷ b'f' ∷ b'g' ∷ b'h' ∷ b'j' ∷ b'k' ∷ b'l' ∷ b';' ∷ 39 ∷ 96 ∷ 304 ∷ 92
    ∷ b'z' ∷ b'x' ∷ b'c' ∷ b'v' ∷ b'b' ∷ b'n' ∷ b'm' ∷ b',' ∷ b'.' ∷ b'/' ∷ 303 ∷ 268 ∷ 308 ∷ 32
    ∷ 301 ∷ 282 ∷ 283 ∷ 284 ∷ 285 ∷ 286 ∷ 287 ∷ 288 ∷ 289 ∷ 290 ∷ 291 ∷ 300 ∷ 302 ∷ 263 ∷ 264 ∷ 265
    ∷ 269 ∷ 260 ∷ 261 ∷ 262 ∷ 270 ∷ 257 ∷ 258 ∷ 259 ∷ 256 ∷ 266 ∷ []

-- The guest takes an arrow key for the key of the number pad that has the same arrow, since those of
-- the program come without the prefix 0xE0, and F11 and F12 for the locks of numbers and of scrolling,
-- whose codes the program gives them.
unfoldable pub seen_as : ℕ → ℕ
seen_as k =
    if k == 273
    then 264
    else if k == 274
    then 258
    else if k == 275
    then 262
    else if k == 276
    then 260
    else if k == 292
    then 300
    else if k == 293
    then 302
    else k
