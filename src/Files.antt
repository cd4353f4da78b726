-- ===== src/Files.antt =====
-- The host's files, as far as the devices use them: lseek and fseek to an absolute position, and
-- reads and writes that transfer what they can. The host's own errors are left out.
pub mod Laws
use kvmulate.Prelude.{
  ℕ, ◌+◌, ◌-◌, ◌%◌, ◌^◌, min, max, ltb, leb, if◌then◌else◌, Outcome, ok, fault, Cells, fill, copy,
}
use kvmulate.Prelude.Int.{ℤ, pos, negsuc, as_int}

pub record File : Type 0 where
  pub size : ℕ
  pub byte : Cells
  pub position : ℕ

unfoldable pub seek : ℕ → File → File
seek position f = record f { position = position }

-- Up to `n` bytes from the position into `buffer`, none of them beyond the end of the file.
unfoldable pub read_file : ℕ → Cells → File → Cells × File
read_file n buffer f =
    let count = min n (f.size - f.position) in
    (copy buffer 0 f.byte f.position count, record f { position = f.position + count })

-- A gap between the end of the file and the position is filled with zeros.
pub write_file : ℕ → Cells → File → File
write_file n buffer f = record {
  size = max f.size (f.position + n);
  byte = copy (fill f.byte f.size (f.position - f.size) 0) f.position buffer 0 n;
  position = f.position + n;
}

-- lseek to the end, stored as an int.
abbrev pub file_length : File → ℤ
file_length f = as_int f.size

-- The size of the blocks that the images are read into.
abbrev pub image_area : ℕ
image_area = 0x20000

-- read of the number of bytes that an int says, from the start into such a block. What is read beyond
-- the block's end is a fault. Linux refuses a count with the highest bit of size_t, which a negative
-- int is converted to: then nothing is read, and no caller looks at the result.
unfoldable pub read_image : Cells → ℤ → File → Outcome Cells
read_image buffer (pos n) f =
    let count = min n f.size in
    if ltb image_area count then fault else ok (copy buffer 0 f.byte 0 count)
read_image buffer (negsuc n) f = ok buffer

-- What an int keeps of the length, as a number without a sign.
abbrev pub int_size : File → ℕ
int_size f = f.size % 2 ^ 32

-- What such a block holds after a file was read whose length is not too long, or negative as an int.
abbrev pub loaded : Cells → File → Cells
loaded buffer f = if leb (int_size f) 0x20000 then copy buffer 0 f.byte 0 (int_size f) else buffer
