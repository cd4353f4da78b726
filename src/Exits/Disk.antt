-- ===== src/Exits/Disk.antt =====
-- system.c, io.c and devices/x86/ata/controller.c: sectors that a guest writes with rep outsw and
-- reads with rep insw.
use kvmulate.Prelude.{
  ℕ, zero, suc, ◌+◌, ◌*◌, ◌≡◌, ◌≢◌, refl, true, false, List, [], ◌∷◌, Outcome, ok, ◌>>=◌, >>=_assoc,
  Cells, get16, run, arith, ap, fun_ext, ◌∙◌, sym, Returns, Returns->>=, IsBytes, length,
}
use mathlib.Core.Path.{subst, ap₂}
use kvmulate.Io.{IoHandler, io_outb, io_outw, io_inw}
use kvmulate.Io.Lookup.{Resolves}
use kvmulate.Io.Dispatch.{claimed_port}
use kvmulate.Ata.{AtaController, curr_dev, reg_sector_count}
use kvmulate.Ata.Commands.{is_lba}
use kvmulate.Ata.Ports.{ata_handler, pio_outb, pio_outw, pio_inw}
use kvmulate.Ata.Words.{
  write_words, read_words, put_words, get_words, AllWords, get_words-put_words,
}
use kvmulate.Ata.Reading.{read_sectors-write_sectors}
use kvmulate.Exits.{handle_io}
use kvmulate.Exits.Streams.{
  write_port, read_ports, get_elements, put_elements, consed, handle_io_lem,
}

>>=_cong {ℓ κ} :
    {A : Type ℓ} {B : Type κ} (m n : Outcome A) (f g : A → Outcome B)
    → m ≡ n
    → ((a : A) → f a ≡ g a)
    → (m >>= f) ≡ (n >>= g)
>>=_cong m n f g e h = ap₂ ◌>>=◌ e (fun_ext h)

get_elements-get_words :
    (n : ℕ) (page : Cells) (offset : ℕ) → get_elements 2 page offset n ≡ get_words page offset n
unfolding get_elements get_words
get_elements-get_words zero page offset = refl
get_elements-get_words (suc n) page offset =
    ap (◌∷◌ (get16 page offset)) (get_elements-get_words n page (offset + 2))

put_elements-put_words :
    (ws : List ℕ) (page : Cells) (offset : ℕ)
    → put_elements 2 page offset ws ≡ put_words page offset ws
unfolding put_elements put_words
put_elements-put_words [] page offset = refl
put_elements-put_words (w ∷ ws) page offset = put_elements-put_words ws _ (offset + 2)

length-get_words : (n : ℕ) (page : Cells) (offset : ℕ) → length (get_words page offset n) ≡ n
unfolding get_words
length-get_words zero page offset = refl
length-get_words (suc n) page offset = omega (arith, length-get_words n page (offset + 2))

get_words-AllWords :
    (n : ℕ) (page : Cells) (offset : ℕ) → IsBytes page → AllWords (get_words page offset n)
unfolding get_words
get_words-AllWords zero page offset h = tt
get_words-AllWords (suc n) page offset h =
    (omega (arith, h offset, h (offset + 1)), get_words-AllWords n page (offset + 2) h)

module _ (hs : List (IoHandler AtaController)) (data_port : Resolves 0x1F0 ata_handler hs)
    (command_port : Resolves 0x1F7 ata_handler hs) where
  outb-pio_outb : (val : ℕ) (c : AtaController) → io_outb hs 0x1F7 val c ≡ pio_outb 0x007 val c
  outb-pio_outb val c =
      (claimed_port hs ata_handler 0x1F7 7 val c command_port (omega arith) (omega arith)).0

  outw-pio_outw : (val : ℕ) (c : AtaController) → io_outw hs 0x1F0 val c ≡ pio_outw 0 val c
  outw-pio_outw val c =
      (claimed_port hs ata_handler 0x1F0 0 val c data_port (omega arith) (omega arith)).1

  inw-pio_inw : (c : AtaController) → io_inw hs 0x1F0 c ≡ pio_inw 0 c
  inw-pio_inw c = (claimed_port hs ata_handler 0x1F0 0 0 c data_port (omega arith) (omega arith)).4

  write_port-write_words :
      (ws : List ℕ) (c : AtaController) → run (write_port hs 0x1F0 2) ws c ≡ write_words ws c
  unfolding run write_words
  write_port-write_words [] c = refl
  write_port-write_words (w ∷ ws) c =
      >>=_cong _ _ _ _ (outw-pio_outw w c) (λ d. write_port-write_words ws d)

  read_ports-read_words : (n : ℕ) (c : AtaController) → read_ports hs 0x1F0 2 n c ≡ read_words n c
  unfolding read_ports read_words
  read_ports-read_words zero c = refl
  read_ports-read_words (suc n) c = >>=_cong _ _ _ _ (inw-pio_inw c) (λ p.
      ap (λ (m : Outcome (List ℕ × AtaController)). m >>= consed hs 0x1F0 2 p.0)
        (read_ports-read_words n p.1))

  rep_outsw :
      (n offset : ℕ) (page : Cells) (c : AtaController)
      → handle_io hs true 0x1F0 2 n offset page c
        ≡ (write_words (get_words page offset n) c >>= λ d. ok (page, d))
  rep_outsw n offset page c =
      (handle_io_lem hs 0x1F0 2 n offset page c).0
      ∙ ap (λ (m : Outcome AtaController). m >>= λ d. ok (page, d))
          (ap (λ (ws : List ℕ). run (write_port hs 0x1F0 2) ws c)
              (get_elements-get_words n page offset)
            ∙ write_port-write_words (get_words page offset n) c)

  abbrev put : Cells → ℕ → List ℕ × AtaController → Outcome (Cells × AtaController)
  put page offset q = ok (put_words page offset q.0, q.1)

  rep_insw :
      (n offset : ℕ) (page : Cells) (c : AtaController)
      → handle_io hs false 0x1F0 2 n offset page c ≡ (read_words n c >>= put page offset)
  rep_insw n offset page c =
      (handle_io_lem hs 0x1F0 2 n offset page c).1
      ∙ >>=_cong _ _ _ _ (read_ports-read_words n c)
          (λ q. ap (λ (cells : Cells). ok (cells, q.1)) (put_elements-put_words q.0 page offset))

  -- The accesses of a write and a read, as the controller's own functions.
  transfers :
      (c : AtaController) (n from to : ℕ) (page page' : Cells)
      → (io_outb hs 0x1F7 0x30 c
          >>= handle_io hs true 0x1F0 2 n from page
          >>= (λ q. io_outb hs 0x1F7 0x20 q.1)
          >>= handle_io hs false 0x1F0 2 n to page')
        ≡ (pio_outb 0x007 0x30 c
            >>= write_words (get_words page from n)
            >>= pio_outb 0x007 0x20
            >>= read_words n
            >>= put page' to)
  transfers c n from to page page' =
      let start = pio_outb 0x007 0x30 c in
      let words = write_words (get_words page from n) in
      let written =
        >>=_cong _ _ _ _ (outb-pio_outb 0x30 c) (rep_outsw n from page)
        ∙ sym (>>=_assoc start words (λ d. ok (page, d))) in
      let commanded =
        ap (λ (m : Outcome (Cells × AtaController)). m >>= λ q. io_outb hs 0x1F7 0x20 q.1) written
        ∙ >>=_assoc (start >>= words) (λ d. ok (page, d)) (λ q. io_outb hs 0x1F7 0x20 q.1)
        ∙ >>=_cong (start >>= words) (start >>= words) _ _ refl (outb-pio_outb 0x20) in
      >>=_cong _ _ _ _ commanded (rep_insw n to page')
      ∙ sym (>>=_assoc (start >>= words >>= pio_outb 0x007 0x20) (read_words n) (put page' to))

  -- WRITE SECTORS and one rep outsw of the words of that many sectors from the page of an exit, then
  -- READ SECTORS and one rep insw to another, at the ports where the program dispatches to the ATA
  -- controller, whose current drive is present, addressed by LBA and has a count that is not 0: the
  -- same words arrive.
  pub disk_round_trip :
      (c : AtaController) (n from to : ℕ) (page page' : Cells)
      → (curr_dev c).is_present ≡ true
      → is_lba (curr_dev c).reg ≡ true
      → (curr_dev c).reg reg_sector_count ≢ 0
      → 2 * n ≡ (curr_dev c).reg reg_sector_count * 512
      → IsBytes page
      → Returns
          (λ q. get_words q.0 to n ≡ get_words page from n)
          (io_outb hs 0x1F7 0x30 c
            >>= handle_io hs true 0x1F0 2 n from page
            >>= (λ q. io_outb hs 0x1F7 0x20 q.1)
            >>= handle_io hs false 0x1F0 2 n to page')
  disk_round_trip c n from to page page' present lba some_sectors enough bytes =
      let ws = get_words page from n in
      let size : length ws ≡ n = length-get_words n page from in
      let words : AllWords ws = get_words-AllWords n page from bytes in
      let read =
        rw size at
          (read_sectors-write_sectors c ws present lba some_sectors (omega (arith, size)) words) in
      subst (Returns (λ (q : Cells × AtaController). get_words q.0 to n ≡ ws))
        (sym (transfers c n from to page page'))
        (Returns->>= (λ x. x.0 ≡ ws) (λ x. get_words x.0 to n ≡ ws)
          (pio_outb 0x007 0x30 c >>= write_words ws >>= pio_outb 0x007 0x20 >>= read_words n)
          (put page' to) read
          (λ q same.
            ap (λ (vs : List ℕ). get_words (put_words page' to vs) to n) same
            ∙ ap (get_words (put_words page' to ws) to) (sym size)
            ∙ get_words-put_words ws page' to words))
