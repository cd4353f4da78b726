-- ===== src/Ata/Transfer.antt =====
-- devices/x86/ata/controller.c: WRITE SECTORS with its data, from the command to the last word.
use kvmulate.Prelude.{
  ◌≢◌, ℕ, ◌*◌, ◌≡◌, ap, ◌∙◌, sym, List, [], ◌∷◌, ok, arith, ◌>>=◌, update, length, true, Returns,
  zeros,
}
use mathlib.Core.Path.{subst}
use kvmulate.Irq.{irq_set}
use kvmulate.Files.{seek, write_file}
use kvmulate.Ata.{
  AtaController, curr_dev, set_curr_dev, reg_sector_count, reg_command, set_ok_status, set_status,
}
use kvmulate.Ata.Commands.{cmd_write_sectors, do_command, lba_of_reg, is_lba}
use kvmulate.Ata.Ports.{pio_outb, flush}
use kvmulate.Ata.Words.{write_words, put_words, receiving, received, write_words-receiving}

-- The controller after the command WRITE SECTORS, but for the buffer.
abbrev commanded : AtaController → AtaController
commanded c =
    let d = curr_dev c in
    let c' =
      set_curr_dev
        (record d {
          write_buffer_lba = lba_of_reg d.reg;
          reg = set_ok_status 0x48 (update d.reg reg_command 0x30);
        })
        c in
    record c' { calls = irq_set 14 0 (irq_set 14 0 c.calls) }

abbrev pub write_size : AtaController → ℕ
write_size c = (curr_dev c).reg reg_sector_count * 512

write_command :
    (c : AtaController)
    → (curr_dev c).is_present ≡ true
    → is_lba (curr_dev c).reg ≡ true
    → (curr_dev c).reg reg_sector_count ≢ 0
    → pio_outb 0x007 0x30 c ≡ ok (receiving (commanded c) zeros 0 (write_size c))
unfolding pio_outb do_command cmd_write_sectors is_lba lba_of_reg
write_command c present lba some_sectors = ground arith

write_transfer :
    (c : AtaController) (w : ℕ) (ws : List ℕ)
    → (curr_dev c).is_present ≡ true
    → is_lba (curr_dev c).reg ≡ true
    → (curr_dev c).reg reg_sector_count ≢ 0
    → 2 * length (w ∷ ws) ≡ write_size c
    → (pio_outb 0x007 0x30 c >>= write_words (w ∷ ws))
      ≡ ok (received (commanded c) (put_words zeros 0 (w ∷ ws)) (write_size c))
write_transfer c w ws present lba some_sectors enough =
    ap (λ m. m >>= write_words (w ∷ ws)) (write_command c present lba some_sectors)
    ∙ write_words-receiving w ws (commanded c) zeros 0 (write_size c) (omega arith)

-- What a completed WRITE SECTORS of the words `ws` leaves behind: their bytes are in the file from
-- the addressed sector on, the drive is ready and asks for no more data, there is no error, and
-- the interrupt line is up; the other registers are as they were.
pub record Written (c : AtaController) (ws : List ℕ) (c' : AtaController) : Type 0 where
  pub file :
      (curr_dev c').backingfile
      ≡ write_file
          (write_size c)
          (put_words zeros 0 ws)
          (seek (lba_of_reg (curr_dev c).reg * 512) (curr_dev c).backingfile)
  pub registers :
      (curr_dev c').reg
      ≡ set_status 0x40 (set_ok_status 0x48 (update (curr_dev c).reg reg_command 0x30))
  pub present : (curr_dev c').is_present ≡ true
  pub calls : c'.calls ≡ irq_set 14 1 (irq_set 14 0 (irq_set 14 0 c.calls))
  pub curr : c'.curr ≡ c.curr

received-Written :
    (c : AtaController) (ws : List ℕ)
    → (curr_dev c).is_present ≡ true
    → Written c ws (received (commanded c) (put_words zeros 0 ws) (write_size c))
unfolding flush
received-Written c ws present = ground arith

-- WRITE SECTORS on a present drive that is addressed by LBA, with a count that is not 0, and then
-- all the words of that many sectors: no access is outside the buffer, and the words are written.
pub write_sectors-Written :
    (c : AtaController) (ws : List ℕ)
    → (curr_dev c).is_present ≡ true
    → is_lba (curr_dev c).reg ≡ true
    → (curr_dev c).reg reg_sector_count ≢ 0
    → 2 * length ws ≡ (curr_dev c).reg reg_sector_count * 512
    → Returns (Written c ws) (pio_outb 0x007 0x30 c >>= write_words ws)
write_sectors-Written c [] present lba some_sectors enough = absurd (some_sectors (omega arith))
write_sectors-Written c (w ∷ ws) present lba some_sectors enough =
    subst (Returns (Written c (w ∷ ws)))
      (sym (write_transfer c w ws present lba some_sectors enough))
      (received-Written c (w ∷ ws) present)
