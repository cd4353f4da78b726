-- ===== src/Machine/Disk.antt =====
-- system.c, io.c, devices/devices.c and devices/x86/ata/controller.c: sectors that the guest of the
-- whole machine writes with rep outsw and reads with rep insw.
use kvmulate.Prelude.{
  ℕ, ◌*◌, ◌≡◌, ◌≢◌, refl, ap, sym, ◌∙◌, true, false, List, [], ◌∷◌, map, some, Outcome, ◌>>=◌,
  Cells, Returns, IsBytes, arith,
}
use mathlib.Core.Path.{subst}
use kvmulate.Irq.{IrqLevel}
use kvmulate.Io.{IoHandler, lookup_handler, io_outb}
use kvmulate.Io.Lookup.{Resolves}
use kvmulate.Io.Parts.{handler_part}
use kvmulate.Io.Parts.Exits.{
  of_result, of_result->>=, of_state-result, Returns-of_result, outb_state, outsw_result,
  insw_result,
}
use kvmulate.Ata.{
  AtaController, Drive, master_drive, slave_drive, dev_at, curr_dev, reg_sector_count,
}
use kvmulate.Ata.Commands.{is_lba}
use kvmulate.Ata.Ports.{ata_handler}
use kvmulate.Ata.Words.{get_words}
use kvmulate.Exits.{handle_io}
use kvmulate.Exits.Disk.{disk_round_trip}
use kvmulate.Machine.{Machine, ata_part, port_table}
use kvmulate.Machine.Owners.{handler_of, registered}
use kvmulate.Machine.Ports.{lookup-owner, of_table}

-- The exits of a write of `n` words of a page and a read of as many to another page.
module _ {S : Type 0} (hs : List (IoHandler S)) (n from to : ℕ) (page page' : Cells) where
  abbrev pub write_and_read : S → Outcome (Cells × S)
  write_and_read s =
      io_outb hs 0x1F7 0x30 s
      >>= handle_io hs true 0x1F0 2 n from page
      >>= (λ q. io_outb hs 0x1F7 0x20 q.1)
      >>= handle_io hs false 0x1F0 2 n to page'

abbrev table : List (IoHandler Machine)
table = map handler_of registered

abbrev alone : List (IoHandler AtaController)
alone = ata_handler ∷ []

command_port : lookup_handler 0x1F7 table ≡ some (handler_part ata_part ata_handler)
command_port = lookup-owner 0x1F7 (omega arith)

data_port : lookup_handler 0x1F0 table ≡ some (handler_part ata_part ata_handler)
data_port = lookup-owner 0x1F0 (omega arith)

write_and_read-alone :
    (n from to : ℕ) (page page' : Cells) (m : Machine)
    → of_result ata_part (write_and_read table n from to page page' m)
      ≡ write_and_read alone n from to page page' (ata_part.get m)
write_and_read-alone n from to page page' m =
    of_result->>= ata_part ((start >>= words) >>= λ q. io_outb table 0x1F7 0x20 q.1)
      (handle_io table false 0x1F0 2 n to page') (handle_io alone false 0x1F0 2 n to page')
      (insw_result ata_part keeps ata_handler table 0x1F0 data_port n to page')
    ∙ ap (λ (o : Outcome AtaController). o >>= handle_io alone false 0x1F0 2 n to page')
        (of_state-result ata_part (start >>= words) (io_outb table 0x1F7 0x20)
            (io_outb alone 0x1F7 0x20)
            (outb_state ata_part keeps ata_handler table 0x1F7 command_port 0x20)
          ∙ ap (λ (o : Outcome (Cells × AtaController)). o >>= λ q. io_outb alone 0x1F7 0x20 q.1)
              (of_result->>= ata_part start words (handle_io alone true 0x1F0 2 n from page)
                  (outsw_result ata_part keeps ata_handler table 0x1F0 data_port n from page)
                ∙ ap (λ (o : Outcome AtaController). o >>= handle_io alone true 0x1F0 2 n from page)
                    (outb_state ata_part keeps ata_handler table 0x1F7 command_port 0x30 m)))
  where
    keeps : (c : AtaController) (t : Machine) → ata_part.get (ata_part.set c t) ≡ c
    keeps c t = refl

    start : Outcome Machine
    start = io_outb table 0x1F7 0x30 m

    words : Machine → Outcome (Cells × Machine)
    words = handle_io table true 0x1F0 2 n from page

-- The calls of irq_set do not matter to the current drive.
curr_dev-calls :
    (c : AtaController) (calls : List IrqLevel) → curr_dev (record c { calls = calls }) ≡ curr_dev c
curr_dev-calls c calls = go c.curr
  where
    go : (d : Drive) → dev_at d (record c { calls = calls }) ≡ dev_at d c
    go master_drive = refl
    go slave_drive = refl

-- A guest of the whole machine, whose current disk is present, addressed by LBA and has a count that
-- is not 0: WRITE SECTORS and one rep outsw of the words of that many sectors from the page of an
-- exit, then READ SECTORS and one rep insw to another, through the program's table of port handlers.
-- The transfers end, and the same words arrive.
pub disk_through_table :
    (m : Machine) (n from to : ℕ) (page page' : Cells)
    → (curr_dev m.ata).is_present ≡ true
    → is_lba (curr_dev m.ata).reg ≡ true
    → (curr_dev m.ata).reg reg_sector_count ≢ 0
    → 2 * n ≡ (curr_dev m.ata).reg reg_sector_count * 512
    → IsBytes page
    → Returns
        (λ hs.
          Returns
            (λ q. get_words q.0 to n ≡ get_words page from n)
            (write_and_read hs n from to page page' m))
        port_table
disk_through_table m n from to page page' present lba some_sectors enough bytes =
    let c = ata_part.get m in
    let same : curr_dev c ≡ curr_dev m.ata = curr_dev-calls m.ata m.calls in
    let arrives = λ (cells : Cells). get_words cells to n ≡ get_words page from n in
    let resolves : Resolves 0x1F0 ata_handler alone = Resolves.here refl in
    let resolves' : Resolves 0x1F7 ata_handler alone = Resolves.here refl in
    of_table (λ hs. Returns (λ q. arrives q.0) (write_and_read hs n from to page page' m))
      (Returns-of_result ata_part arrives (write_and_read table n from to page page' m) (
        subst (Returns (λ (q : Cells × AtaController). arrives q.0))
          (sym (write_and_read-alone n from to page page' m))
          (disk_round_trip alone resolves resolves' c n from to page page' (rw same present)
            (rw same lba) (rw same some_sectors) (rw same enough) bytes)))
