-- ===== src/Tests/Disk.antt =====
-- devices/x86/floppy.c and devices/x86/i8237-dma.c: a sector of a floppy to memory.
use kvmulate.Prelude.{
  ℕ, zero, suc, ◌+◌, ◌*◌, ◌/◌, ◌%◌, ◌≤◌, ◌≡◌, refl, List, [], ◌∷◌, ok, arith, ◌>>=◌, Returns, zeros,
  update, length, some, copy,
}
use kvmulate.Irq.{irq_set}
use kvmulate.Files.{File}
use kvmulate.LowMem.{LowMem, guest_byte}
use kvmulate.Dma.{Dma, Channels, dma_transfer_from_device}
use kvmulate.Dma.Program.{dma_transfer_from_device_lem}
use kvmulate.Floppy.{Fdc, floppy_outb, floppy_inb, do_execute_command, command_length, chs_to_lba}
use kvmulate.Floppy.Commands.{write_bytes, put_bytes, write_bytes-do_execute_command, seek_sense}
use kvmulate.Floppy.Geometry.{read_data_lem}

abbrev no_channels : Channels
no_channels = record { regs = zeros; flipflop = zeros; mode = 0; mask = 0 }

-- Channel 2 is to move 512 bytes to 0x7C00.
abbrev dma : Dma
dma = record {
  ctl0 = record no_channels { regs = update (update (update zeros 9 0x7C) 10 0xFF) 11 1 };
  ctl1 = no_channels;
  page = zeros;
}

abbrev memory : LowMem
memory = record { low = zeros; high = zeros }

abbrev image : File
image = record { size = 1474560; byte = λ i. i / 512 % 256; position = 0 }

abbrev fdc : Fdc
fdc = record {
  sra = 0;
  srb = 0;
  msr = 0x80;
  dor = 0;
  ccr = 0;
  dsr = 0;
  st = zeros;
  fifo = zeros;
  fifondx = 0;
  fifolen = 0;
  cyl = 0;
  head = 0;
  sect = 1;
  image = some image;
  dma_buffer = zeros;
  dma = dma;
  mem = memory;
  calls = [];
}

dma_transfer_from_device_lem_example :
    dma_transfer_from_device 2 (λ i. 7) dma memory
    ≡ ok (record memory { low = copy zeros 0x7C00 (λ i. 7) 0 512 })
dma_transfer_from_device_lem_example =
    dma_transfer_from_device_lem (λ i. 7) dma memory (omega arith) (omega arith) (omega arith)
      (omega arith) (omega arith)

sense_ok : command_length 0x0F ≡ ok 3
unfolding command_length
sense_ok = refl

write_bytes-do_execute_command_example :
    write_bytes (0x0F ∷ 0 ∷ 40 ∷ []) fdc
    ≡ do_execute_command (record fdc {
      fifo = put_bytes zeros 0 (0x0F ∷ 0 ∷ 40 ∷ []);
      fifondx = 3;
      fifolen = 3;
      msr = 0x90;
    })
write_bytes-do_execute_command_example =
    write_bytes-do_execute_command 0x0F 0 (40 ∷ []) fdc refl sense_ok

seek_sense_example :
    Returns
      (λ f1.
        (f1.fifondx ≡ 0)
        × (f1.calls ≡ irq_set 6 1 [])
        × Returns
            (λ p.
              (p.0 ≡ 0)
              × Returns
                  (λ q.
                    (q.0 ≡ 40)
                    × (q.1.cyl ≡ 40)
                    × (q.1.head ≡ 1)
                    × (q.1.fifondx ≡ 0)
                    × (q.1.msr ≡ 0xA0)
                    × (q.1.calls ≡ irq_set 6 0 (irq_set 6 0 f1.calls)))
                  (floppy_inb 5 p.1))
            (floppy_outb 5 0x08 f1 >>= floppy_inb 5))
      (write_bytes (0x0F ∷ 4 ∷ 40 ∷ []) fdc)
seek_sense_example = seek_sense 4 40 fdc refl refl

many_zeros : ℕ → List ℕ
many_zeros zero = []
many_zeros (suc n) = 0 ∷ many_zeros n

length-many_zeros : (n : ℕ) → length (many_zeros n) ≡ n
unfolding many_zeros
length-many_zeros zero = refl
length-many_zeros (suc n) = omega (arith, length-many_zeros n)

enough_zeros : 522 ≤ length (many_zeros 522)
enough_zeros = omega (arith, length-many_zeros 522)

in_image : chs_to_lba 0 1 3 * 512 + 512 * 1 ≤ 1474560
unfolding chs_to_lba
in_image = omega arith

read_data_lem_example :
    Returns
      (λ f'.
        (guest_byte f'.mem 0x7C05 ≡ image.byte (chs_to_lba 0 1 3 * 512 + 5))
        × (f'.fifondx ≡ 0)
        × (f'.fifolen ≡ 7)
        × (f'.msr ≡ 0xC0)
        × (f'.calls ≡ irq_set 6 1 []))
      (write_bytes (0xE6 ∷ 4 ∷ 0 ∷ 1 ∷ 3 ∷ 2 ∷ 1 ∷ 27 ∷ 255 ∷ []) fdc)
read_data_lem_example =
    read_data_lem fdc image 0x7C00 4 0 1 3 2 1 27 255 5 refl refl (omega arith) (omega arith)
      (omega arith) (omega arith) (omega arith) (omega arith) (omega arith) (omega arith)
      (omega arith) (omega arith) (omega arith) refl refl (omega arith) (omega arith) in_image
