-- ===== src/Vga/Indexed.antt =====
-- devices/x86/vga/registers.c: registers behind an index register.
use kvmulate.Vga.{Vga}
