-- ===== src/Vga/Font/High.antt =====
-- include/devices/x86/vga/font.h: the characters from 128 to 255.
use kvmulate.Prelude.{ℕ, List, [], ◌∷◌}
use kvmulate.Vga.Font.Glyph.{glyph}

unfoldable pub glyphs_2 : List (List ℕ)
glyphs_2 =
    glyph 0 0 60 102 194 192 192 192 192 194 102 60 24 112 0 0
    ∷ glyph 0 0 204 0 0 204 204 204 204 204 204 118 0 0 0 0
    ∷ glyph 0 12 24 48 0 124 198 254 192 192 198 124 0 0 0 0
    ∷ glyph 0 16 56 108 0 120 12 124 204 204 204 118 0 0 0 0
    ∷ glyph 0 0 204 0 0 120 12 124 204 204 204 118 0 0 0 0
    ∷ glyph 0 96 48 24 0 120 12 124 204 204 204 118 0 0 0 0
    ∷ glyph 0 56 108 56 0 120 12 124 204 204 204 118 0 0 0 0
    ∷ glyph 0 0 0 0 0 124 198 192 192 192 198 124 24 112 0 0
    ∷ glyph 0 16 56 108 0 124 198 254 192 192 198 124 0 0 0 0
    ∷ glyph 0 0 198 0 0 124 198 254 192 192 198 124 0 0 0 0
    ∷ glyph 0 96 48 24 0 124 198 254 192 192 198 124 0 0 0 0
    ∷ glyph 0 0 102 0 0 56 24 24 24 24 24 60 0 0 0 0
    ∷ glyph 0 24 60 102 0 56 24 24 24 24 24 60 0 0 0 0
    ∷ glyph 0 96 48 24 0 56 24 24 24 24 24 60 0 0 0 0
    ∷ glyph 0 198 0 16 56 108 198 198 254 198 198 198 0 0 0 0
    ∷ glyph 56 108 56 16 56 108 198 198 254 198 198 198 0 0 0 0
    ∷ glyph 12 24 0 254 102 98 104 120 104 98 102 254 0 0 0 0
    ∷ glyph 0 0 0 0 0 236 54 54 126 216 216 110 0 0 0 0
    ∷ glyph 0 0 62 108 204 204 254 204 204 204 204 206 0 0 0 0
    ∷ glyph 0 16 56 108 0 124 198 198 198 198 198 124 0 0 0 0
    ∷ glyph 0 0 198 0 0 124 198 198 198 198 198 124 0 0 0 0
    ∷ glyph 0 96 48 24 0 124 198 198 198 198 198 124 0 0 0 0
    ∷ glyph 0 48 120 204 0 204 204 204 204 204 204 118 0 0 0 0
    ∷ glyph 0 96 48 24 0 204 204 204 204 204 204 118 0 0 0 0
    ∷ glyph 0 0 198 0 0 198 198 198 198 198 198 126 6 12 120 0
    ∷ glyph 0 198 0 124 198 198 198 198 198 198 198 124 0 0 0 0
    ∷ glyph 0 198 0 198 198 198 198 198 198 198 198 124 0 0 0 0
    ∷ glyph 0 0 0 0 0 124 206 222 246 230 198 124 0 0 0 0
    ∷ glyph 0 56 108 100 96 240 96 96 96 96 230 252 0 0 0 0
    ∷ glyph 0 4 124 206 206 214 214 214 214 230 230 124 64 0 0 0
    ∷ glyph 0 0 0 0 0 198 108 56 56 108 198 0 0 0 0 0
    ∷ glyph 0 14 27 24 24 24 126 24 24 24 216 112 0 0 0 0
    ∷ glyph 0 24 48 96 0 120 12 124 204 204 204 118 0 0 0 0
    ∷ glyph 0 12 24 48 0 56 24 24 24 24 24 60 0 0 0 0
    ∷ glyph 0 24 48 96 0 124 198 198 198 198 198 124 0 0 0 0
    ∷ glyph 0 24 48 96 0 204 204 204 204 204 204 118 0 0 0 0
    ∷ glyph 0 0 118 220 0 220 102 102 102 102 102 102 0 0 0 0
    ∷ glyph 118 220 0 198 230 246 254 222 206 198 198 198 0 0 0 0
    ∷ glyph 0 0 60 108 108 62 0 126 0 0 0 0 0 0 0 0
    ∷ glyph 0 0 56 108 108 56 0 124 0 0 0 0 0 0 0 0
    ∷ glyph 0 0 48 48 0 48 48 96 192 198 198 124 0 0 0 0
    ∷ glyph 0 0 124 130 178 170 178 170 170 130 124 0 0 0 0 0
    ∷ glyph 0 0 0 0 0 0 254 6 6 6 6 0 0 0 0 0
    ∷ glyph 0 96 224 98 102 108 24 48 96 220 134 12 24 62 0 0
    ∷ glyph 0 96 224 98 102 108 24 48 102 206 154 63 6 6 0 0
    ∷ glyph 0 0 24 24 0 24 24 24 60 60 60 24 0 0 0 0
    ∷ glyph 0 0 0 0 0 54 108 216 108 54 0 0 0 0 0 0
    ∷ glyph 0 0 0 0 0 216 108 54 108 216 0 0 0 0 0 0
    ∷ glyph 17 68 17 68 17 68 17 68 17 68 17 68 17 68 17 68
    ∷ glyph 85 170 85 170 85 170 85 170 85 170 85 170 85 170 85 170
    ∷ glyph 221 119 221 119 221 119 221 119 221 119 221 119 221 119 221 119
    ∷ glyph 24 24 24 24 24 24 24 24 24 24 24 24 24 24 24 24
    ∷ glyph 24 24 24 24 24 24 24 248 24 24 24 24 24 24 24 24
    ∷ glyph 96 192 16 56 108 198 198 254 198 198 198 198 0 0 0 0
    ∷ glyph 124 198 16 56 108 198 198 254 198 198 198 198 0 0 0 0
    ∷ glyph 12 6 16 56 108 198 198 254 198 198 198 198 0 0 0 0
    ∷ glyph 0 0 124 130 154 162 162 162 154 130 124 0 0 0 0 0
    ∷ glyph 54 54 54 54 54 246 6 246 54 54 54 54 54 54 54 54
    ∷ glyph 54 54 54 54 54 54 54 54 54 54 54 54 54 54 54 54
    ∷ glyph 0 0 0 0 0 254 6 246 54 54 54 54 54 54 54 54
    ∷ glyph 54 54 54 54 54 246 6 254 0 0 0 0 0 0 0 0
    ∷ glyph 0 0 24 24 124 198 192 192 198 124 24 24 0 0 0 0
    ∷ glyph 0 0 0 102 102 60 24 126 24 126 24 24 0 0 0 0
    ∷ glyph 0 0 0 0 0 0 0 248 24 24 24 24 24 24 24 24
    ∷ []

unfoldable pub glyphs_3 : List (List ℕ)
glyphs_3 =
    glyph 24 24 24 24 24 24 24 31 0 0 0 0 0 0 0 0
    ∷ glyph 24 24 24 24 24 24 24 255 0 0 0 0 0 0 0 0
    ∷ glyph 0 0 0 0 0 0 0 255 24 24 24 24 24 24 24 24
    ∷ glyph 24 24 24 24 24 24 24 31 24 24 24 24 24 24 24 24
    ∷ glyph 0 0 0 0 0 0 0 255 0 0 0 0 0 0 0 0
    ∷ glyph 24 24 24 24 24 24 24 255 24 24 24 24 24 24 24 24
    ∷ glyph 0 0 118 220 0 120 12 124 204 204 204 118 0 0 0 0
    ∷ glyph 118 220 0 56 108 198 198 254 198 198 198 198 0 0 0 0
    ∷ glyph 54 54 54 54 54 55 48 63 0 0 0 0 0 0 0 0
    ∷ glyph 0 0 0 0 0 63 48 55 54 54 54 54 54 54 54 54
    ∷ glyph 54 54 54 54 54 247 0 255 0 0 0 0 0 0 0 0
    ∷ glyph 0 0 0 0 0 255 0 247 54 54 54 54 54 54 54 54
    ∷ glyph 54 54 54 54 54 55 48 55 54 54 54 54 54 54 54 54
    ∷ glyph 0 0 0 0 0 255 0 255 0 0 0 0 0 0 0 0
    ∷ glyph 54 54 54 54 54 247 0 247 54 54 54 54 54 54 54 54
    ∷ glyph 0 0 0 0 198 124 198 198 198 198 124 198 0 0 0 0
    ∷ glyph 0 0 52 24 44 6 62 102 102 102 102 60 0 0 0 0
    ∷ glyph 0 0 248 108 102 102 246 102 102 102 108 248 0 0 0 0
    ∷ glyph 56 108 0 254 102 98 104 120 104 98 102 254 0 0 0 0
    ∷ glyph 0 198 0 254 102 98 104 120 104 98 102 254 0 0 0 0
    ∷ glyph 48 24 0 254 102 98 104 120 104 98 102 254 0 0 0 0
    ∷ glyph 0 0 0 0 0 56 24 24 24 24 24 60 0 0 0 0
    ∷ glyph 12 24 0 60 24 24 24 24 24 24 24 60 0 0 0 0
    ∷ glyph 60 102 0 60 24 24 24 24 24 24 24 60 0 0 0 0
    ∷ glyph 0 102 0 60 24 24 24 24 24 24 24 60 0 0 0 0
    ∷ glyph 24 24 24 24 24 24 24 248 0 0 0 0 0 0 0 0
    ∷ glyph 0 0 0 0 0 0 0 31 24 24 24 24 24 24 24 24
    ∷ glyph 255 255 255 255 255 255 255 255 255 255 255 255 255 255 255 255
    ∷ glyph 0 0 0 0 0 0 0 255 255 255 255 255 255 255 255 255
    ∷ glyph 0 24 24 24 24 24 0 0 24 24 24 24 24 0 0 0
    ∷ glyph 48 24 0 60 24 24 24 24 24 24 24 60 0 0 0 0
    ∷ glyph 255 255 255 255 255 255 255 0 0 0 0 0 0 0 0 0
    ∷ glyph 24 48 0 124 198 198 198 198 198 198 198 124 0 0 0 0
    ∷ glyph 0 0 120 204 204 204 216 204 198 198 198 204 0 0 0 0
    ∷ glyph 56 108 0 124 198 198 198 198 198 198 198 124 0 0 0 0
    ∷ glyph 48 24 0 124 198 198 198 198 198 198 198 124 0 0 0 0
    ∷ glyph 0 0 118 220 0 124 198 198 198 198 198 124 0 0 0 0
    ∷ glyph 118 220 0 124 198 198 198 198 198 198 198 124 0 0 0 0
    ∷ glyph 0 0 0 0 0 102 102 102 102 102 102 124 96 96 192 0
    ∷ glyph 0 0 224 96 96 124 102 102 102 102 102 124 96 96 240 0
    ∷ glyph 0 0 240 96 124 102 102 102 102 124 96 240 0 0 0 0
    ∷ glyph 24 48 0 198 198 198 198 198 198 198 198 124 0 0 0 0
    ∷ glyph 56 108 0 198 198 198 198 198 198 198 198 124 0 0 0 0
    ∷ glyph 48 24 0 198 198 198 198 198 198 198 198 124 0 0 0 0
    ∷ glyph 0 12 24 48 0 198 198 198 198 198 198 126 6 12 248 0
    ∷ glyph 12 24 0 102 102 102 102 60 24 24 24 60 0 0 0 0
    ∷ glyph 0 255 0 0 0 0 0 0 0 0 0 0 0 0 0 0
    ∷ glyph 0 12 24 48 0 0 0 0 0 0 0 0 0 0 0 0
    ∷ glyph 0 0 0 0 0 0 0 254 0 0 0 0 0 0 0 0
    ∷ glyph 0 0 0 0 24 24 126 24 24 0 0 126 0 0 0 0
    ∷ glyph 0 0 0 0 0 0 0 0 0 0 0 0 255 0 255 0
    ∷ glyph 0 224 48 98 54 236 24 48 102 206 154 63 6 6 0 0
    ∷ glyph 0 0 127 219 219 219 123 27 27 27 27 27 0 0 0 0
    ∷ glyph 0 124 198 96 56 108 198 198 108 56 12 198 124 0 0 0
    ∷ glyph 0 0 0 0 0 24 0 126 0 24 0 0 0 0 0 0
    ∷ glyph 0 0 0 0 0 0 0 0 0 0 0 24 12 120 0 0
    ∷ glyph 0 56 108 108 56 0 0 0 0 0 0 0 0 0 0 0
    ∷ glyph 0 198 0 0 0 0 0 0 0 0 0 0 0 0 0 0
    ∷ glyph 0 0 0 0 0 0 0 24 0 0 0 0 0 0 0 0
    ∷ glyph 0 24 56 24 24 24 60 0 0 0 0 0 0 0 0 0
    ∷ glyph 0 124 6 60 6 6 124 0 0 0 0 0 0 0 0 0
    ∷ glyph 0 60 102 12 24 50 126 0 0 0 0 0 0 0 0 0
    ∷ glyph 0 0 0 0 126 126 126 126 126 126 126 0 0 0 0 0
    ∷ glyph 0 0 0 0 0 0 0 0 0 0 0 0 0 0 0 0
    ∷ []
