-- ===== src/Floppy/Geometry.antt =====
-- devices/x86/floppy.c: the sector numbers of a disk of two heads and 18 sectors on a track, and a
-- read from the disk to the guest's memory.
use kvmulate.Prelude.{
  ℕ, ◌+◌, ◌-◌, ◌*◌, ◌/◌, ◌%◌, ◌^◌, ◌<◌, ◌≤◌, ◌≡◌, refl, [], ◌∷◌, arith, Returns, Cells, some, copy,
  min,
}
use kvmulate.Files.{File, seek, read_file}
use kvmulate.Irq.{irq_set}
use kvmulate.LowMem.{guest_byte}
use kvmulate.Dma.Program.{dma_transfer_from_device_lem}
use kvmulate.Floppy.{Fdc, do_execute_command, command_length, chs_to_lba, cmd_read_data}
use kvmulate.Floppy.Commands.{write_bytes, put_bytes, write_bytes-do_execute_command}

-- Sector number `lba` stands at cylinder lba / 36, head lba / 18 % 2 and sector lba % 18 + 1, and
-- the controller takes these back to `lba`, while the cylinder fits a byte.
pub chs_to_lba_inverse :
    (lba : ℕ) → lba < 36 * 256 → chs_to_lba (lba / 36) (lba / 18 % 2) (lba % 18 + 1) ≡ lba
unfolding chs_to_lba
chs_to_lba_inverse lba h = omega arith

-- Different places on the disk have different sector numbers.
pub chs_to_lba_injective :
    (c h s c' h' s' : ℕ)
    → c < 256
    → c' < 256
    → h < 2
    → h' < 2
    → 1 ≤ s
    → s ≤ 18
    → 1 ≤ s'
    → s' ≤ 18
    → chs_to_lba c h s ≡ chs_to_lba c' h' s'
    → (c ≡ c') × (h ≡ h') × (s ≡ s')
unfolding chs_to_lba
chs_to_lba_injective c h s c' h' s' a b i j k l m n e = omega arith

chs_to_lba_bound : (c h s : ℕ) → c < 256 → h < 2 → 1 ≤ s → s ≤ 18 → chs_to_lba c h s < 9216
unfolding chs_to_lba
chs_to_lba_bound c h s hc hh h1 h2 = omega arith

-- What fread leaves in the DMA buffer.
abbrev sectors : File → ℕ → ℕ → Cells → Cells
sectors image lba count buffer =
    copy buffer 0 image.byte (lba * 512 % 2 ^ 32)
      (min (512 * count) (image.size - lba * 512 % 2 ^ 32))

-- READ DATA on an idle controller, with the DMA controller programmed for exactly the bytes asked
-- for, to an address below 640 KB with room for them: the guest finds the sectors of the image in
-- its memory there, from the addressed sector on, and the result phase of seven bytes begins with
-- the interrupt line raised.
pub read_data_lem :
    (f : Fdc) (image : File) (a drive cyl head sect size count gap length_byte i : ℕ)
    → f.fifondx ≡ 0
    → f.image ≡ some image
    → cyl < 256
    → head < 2
    → 1 ≤ sect
    → sect ≤ 18
    → 1 ≤ count
    → count ≤ 128
    → f.dma.ctl0.regs 8 < 256
    → f.dma.ctl0.regs 9 < 256
    → f.dma.ctl0.regs 10 < 256
    → f.dma.ctl0.regs 11 < 256
    → f.dma.page 1 < 256
    → f.dma.page 1 * 65536 + f.dma.ctl0.regs 9 * 256 + f.dma.ctl0.regs 8 ≡ a
    → f.dma.ctl0.regs 11 * 256 + f.dma.ctl0.regs 10 + 1 ≡ 512 * count
    → a + 512 * count ≤ 0xA0000
    → i < 512 * count
    → chs_to_lba cyl head sect * 512 + 512 * count ≤ image.size
    → Returns
        (λ f'.
          (guest_byte f'.mem (a + i) ≡ image.byte (chs_to_lba cyl head sect * 512 + i))
          × (f'.fifondx ≡ 0)
          × (f'.fifolen ≡ 7)
          × (f'.msr ≡ 0xC0)
          × (f'.calls ≡ irq_set 6 1 f.calls))
        (write_bytes (0xE6 ∷ drive ∷ cyl ∷ head ∷ sect ∷ size ∷ count ∷ gap ∷ length_byte ∷ []) f)
unfolding do_execute_command put_bytes cmd_read_data read_file seek
read_data_lem f image a drive cyl head sect size count gap length_byte i idle file hc hh hs1 hs2 n1
      n2 r8 r9 r10 r11 p1 at exact room hi inside =
    rw
      (write_bytes-do_execute_command 0xE6 drive
        (cyl ∷ head ∷ sect ∷ size ∷ count ∷ gap ∷ length_byte ∷ []) f idle
        (unfold command_length in refl))
      (ground (
        arith,
        dma_transfer_from_device_lem (sectors image lba count f.dma_buffer) f.dma f.mem r9 r8 r10
            r11 p1,
        chs_to_lba_bound cyl head sect hc hh hs1 hs2,
      ))
  where
    lba : ℕ
    lba = chs_to_lba cyl head sect
