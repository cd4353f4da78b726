-- ===== src/Vga/Font.antt =====
-- include/devices/x86/vga/font.h: the glyphs of the characters, 16 bytes each, the top row first and
-- the leftmost pixel in the highest bit.
mod Glyph
pub mod Low
pub mod High
use kvmulate.Prelude.{ℕ, zero, suc, List, [], ◌∷◌, ◌++◌}
use Low.{glyphs_0, glyphs_1}
use High.{glyphs_2, glyphs_3}

-- The element at an index, or `d` behind the end.
unfoldable pub get_or {ℓ} : {A : Type ℓ} → A → List A → ℕ → A
get_or d [] i = d
get_or d (x ∷ xs) zero = x
get_or d (x ∷ xs) (suc i) = get_or d xs i

unfoldable pub font8x16 : ℕ → ℕ → ℕ
unfolding get_or
font8x16 ch y = get_or 0 (get_or [] (glyphs_0 ++ (glyphs_1 ++ (glyphs_2 ++ glyphs_3))) ch) y
