-- ===== src/Ata/Reading.antt =====
-- devices/x86/ata/controller.c: READ SECTORS with its data, and that what was written is read back.
use kvmulate.Prelude.{
  ◌≢◌, ℕ, ◌*◌, ◌≤◌, ◌<◌, ◌≡◌, ap, ◌∙◌, sym, List, arith, ◌>>=◌, Cells, length, ltb, true, Returns,
  Returns->>=, Returns-map, >>=_assoc, zeros, if◌then◌else◌,
}
use mathlib.Core.Path.{subst}
use kvmulate.Irq.{irq_set}
use kvmulate.Files.{File, seek, read_file}
use kvmulate.Ata.{
  AtaController, Block, curr_dev, reg_status, reg_alternate_status, reg_sector_count,
}
use kvmulate.Ata.Commands.{
  cmd_read_sectors, do_command, lba_of_reg, chs_of_reg, is_lba, read_lba, read_size,
}
use kvmulate.Ata.Ports.{pio_outb}
use kvmulate.Files.Laws.{read_file-write_file}
use kvmulate.Ata.Transfer.{Written, write_sectors-Written, write_size}
use kvmulate.Ata.Words.{
  write_words, read_words, put_words, get_words, AllWords, Sending, read_words-Sending,
  get_words-put_words, get_words_ext,
}

-- The buffer that READ SECTORS fills from the file of the current drive.
abbrev pub sector_block : AtaController → Block
sector_block c =
    let d = curr_dev c in
    let size = read_size d.reg in
    record {
      size = size;
      bytes = (read_file size zeros (seek (read_lba d.reg * 512) d.backingfile)).0;
    }

-- The state right after READ SECTORS: the buffer waits with no byte given yet, the interrupt line is
-- up and the contents of the file are as before.
record Ready (c : AtaController) (c' : AtaController) : Type 0 where
  sending : Sending (sector_block c) c' 0 c'
  calls : c'.calls ≡ irq_set 14 1 (irq_set 14 0 (irq_set 14 0 c.calls))
  byte : (curr_dev c').backingfile.byte ≡ (curr_dev c).backingfile.byte
  size : (curr_dev c').backingfile.size ≡ (curr_dev c).backingfile.size
  curr : c'.curr ≡ c.curr

-- The buffer's parameters depend on the registers only through those that the command leaves.
size_positive : (reg : Cells) → 0 < read_size reg
unfolding read_size
size_positive reg = ground arith

pio_outb-Ready :
    (c : AtaController) → (curr_dev c).is_present ≡ true → Returns (Ready c) (pio_outb 0x007 0x20 c)
unfolding pio_outb do_command cmd_read_sectors read_size read_lba is_lba lba_of_reg chs_of_reg
    read_file seek
pio_outb-Ready c present = ground (arith, size_positive (curr_dev c).reg)

-- What the guest has after READ SECTORS and `n` words from the data port, where `c` is the
-- controller before: the words, as they stand in the buffer that was filled from the file.
pub record WordsRead (c : AtaController) (n : ℕ) (q : List ℕ × AtaController) : Type 0 where
  pub words : q.0 ≡ get_words (sector_block c).bytes 0 n
  pub status :
      (curr_dev q.1).reg reg_status ≡ (if ltb (2 * n) (sector_block c).size then 0x48 else 0x40)
  pub alternate : (curr_dev q.1).reg reg_alternate_status ≡ (curr_dev q.1).reg reg_status
  pub byte : (curr_dev q.1).backingfile.byte ≡ (curr_dev c).backingfile.byte
  pub size : (curr_dev q.1).backingfile.size ≡ (curr_dev c).backingfile.size
  pub calls : q.1.calls ≡ irq_set 14 1 (irq_set 14 0 (irq_set 14 0 c.calls))
  pub curr : q.1.curr ≡ c.curr

Ready-WordsRead :
    (c c' : AtaController) (n : ℕ) (q : List ℕ × AtaController)
    → Ready c c'
    → (q.0 ≡ get_words (sector_block c).bytes 0 n) × Sending (sector_block c) c' (2 * n) q.1
    → WordsRead c n q
Ready-WordsRead c c' n q r (w, s) = record {
  words = w;
  status = s.status;
  alternate = s.alternate;
  byte = ap (λ (f : File). f.byte) s.file ∙ r.byte;
  size = ap (λ (f : File). f.size) s.file ∙ r.size;
  calls = s.calls ∙ r.calls;
  curr = s.curr ∙ r.curr;
}

-- READ SECTORS on a present drive, and then any number of words up to the end of the sectors: no
-- access is outside the buffer, the words are those of the file from the addressed sector on
-- (zeros beyond its end), the drive asks for more reads exactly until the last word, the file is
-- unchanged and the interrupt line is up.
pub read_sectors-WordsRead :
    (c : AtaController) (n : ℕ)
    → (curr_dev c).is_present ≡ true
    → 2 * n ≤ read_size (curr_dev c).reg
    → Returns (WordsRead c n) (pio_outb 0x007 0x20 c >>= read_words n)
read_sectors-WordsRead c n present fits =
    Returns->>= (Ready c) (WordsRead c n) (pio_outb 0x007 0x20 c) (read_words n)
      (pio_outb-Ready c present)
      λ c' r.
        Returns-map _ _ (read_words n c')
          (read_words-Sending n (sector_block c) c' 0 (2 * n) c' r.sending (omega arith) fits)
          λ q h. Ready-WordsRead c c' n q r h

-- The block that a read finds right after the write of `ws` to the same registers.
same_sectors :
    (c c' : AtaController) (ws : List ℕ)
    → is_lba (curr_dev c).reg ≡ true
    → (curr_dev c).reg reg_sector_count ≢ 0
    → Written c ws c'
    → (read_size (curr_dev c').reg ≡ write_size c)
      × (read_lba (curr_dev c').reg ≡ lba_of_reg (curr_dev c).reg)
unfolding read_size read_lba is_lba lba_of_reg
same_sectors c c' ws lba some_sectors w = rw w.registers (ground arith)

block_after_write :
    (c c' : AtaController) (ws : List ℕ) (i : ℕ)
    → is_lba (curr_dev c).reg ≡ true
    → (curr_dev c).reg reg_sector_count ≢ 0
    → Written c ws c'
    → i < write_size c
    → (sector_block c').bytes i ≡ put_words zeros 0 ws i
block_after_write c c' ws i lba some_sectors w h =
    let (size, at) = same_sectors c c' ws lba some_sectors w in
    rw (size, at, w.file)
      (read_file-write_file (write_size c) (lba_of_reg (curr_dev c).reg * 512)
        (put_words zeros 0 ws) zeros (curr_dev c).backingfile i h)

-- WRITE SECTORS of any words, on a present drive that is addressed by LBA with a count that is not
-- 0, followed by READ SECTORS: the guest reads the same words back.
pub read_sectors-write_sectors :
    (c : AtaController) (ws : List ℕ)
    → (curr_dev c).is_present ≡ true
    → is_lba (curr_dev c).reg ≡ true
    → (curr_dev c).reg reg_sector_count ≢ 0
    → 2 * length ws ≡ (curr_dev c).reg reg_sector_count * 512
    → AllWords ws
    → Returns
        (λ q. q.0 ≡ ws)
        (pio_outb 0x007 0x30 c
          >>= write_words ws
          >>= pio_outb 0x007 0x20
          >>= read_words (length ws))
read_sectors-write_sectors c ws present lba some_sectors enough words =
    subst (Returns (λ (q : List ℕ × AtaController). q.0 ≡ ws))
      (sym (
        >>=_assoc (pio_outb 0x007 0x30 c >>= write_words ws) (pio_outb 0x007 0x20)
          (read_words (length ws))))
      (Returns->>= (Written c ws) _ (pio_outb 0x007 0x30 c >>= write_words ws) _
        (write_sectors-Written c ws present lba some_sectors enough)
        λ c' w.
          let fits : 2 * length ws ≤ read_size (curr_dev c').reg =
            omega (arith, same_sectors c c' ws lba some_sectors w) in
          Returns-map _ _ (pio_outb 0x007 0x20 c' >>= read_words (length ws))
            (read_sectors-WordsRead c' (length ws) w.present fits)
            λ q r.
              r.words
              ∙ get_words_ext (length ws) _ _ 0 (2 * length ws) (omega arith)
                  (λ i h. block_after_write c c' ws i lba some_sectors w (omega arith))
              ∙ get_words-put_words ws zeros 0 words)
