-- ===== src/Files/Laws.antt =====
-- What is written is read back.
use kvmulate.Prelude.{ℕ, ◌<◌, ◌≡◌, arith, ap, Cells}
use kvmulate.Files.{File, seek, read_file, write_file}

pub read_file-write_file :
    (n at : ℕ) (content buffer : Cells) (f : File) (i : ℕ)
    → i < n
    → (read_file n buffer (seek at (write_file n content (seek at f)))).0 i ≡ content i
unfolding read_file write_file seek
read_file-write_file n at content buffer f i h = grind (arith, ap content)
