-- ===== src/Vga/Font/Glyph.antt =====
-- include/devices/x86/vga/font.h: one glyph.
use kvmulate.Prelude.{ℕ, List, [], ◌∷◌}

abbrev pub glyph : ℕ → ℕ → ℕ → ℕ → ℕ → ℕ → ℕ → ℕ → ℕ → ℕ → ℕ → ℕ → ℕ → ℕ → ℕ → ℕ → List ℕ
glyph a b c d e f g h i j k l m n o p =
    a ∷ b ∷ c ∷ d ∷ e ∷ f ∷ g ∷ h ∷ i ∷ j ∷ k ∷ l ∷ m ∷ n ∷ o ∷ p ∷ []
