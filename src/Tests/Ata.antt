-- ===== src/Tests/Ata.antt =====
-- devices/x86/ata/controller.c: one sector of a small disk.
use kvmulate.Prelude.{
  IsBytes, ℕ, zero, suc, ◌+◌, ◌-◌, ◌*◌, ◌%◌, ◌<◌, ◌≤◌, ◌≡◌, ◌≢◌, ◌⊎◌, refl, List, [], ◌∷◌, arith,
  ◌>>=◌, true, false, Returns, zeros, update, length, Cells, some, none,
}
use kvmulate.Files.{File}
use kvmulate.Ata.{
  AtaController, AtaDev, DeviceType, curr_dev, master_drive, reg_sector_count, reg_device_head,
  reg_sector_number,
}
use kvmulate.Ata.Commands.{is_lba, lba_of_reg, read_size}
use kvmulate.Ata.Identify.{build_identify_data, dev_num_sectors, heads}
use kvmulate.Ata.Ports.{pio_outb}
use kvmulate.Ata.Words.{write_words, read_words, AllWords, Sending}
use kvmulate.Ata.Transfer.{Written, write_sectors-Written}
use kvmulate.Ata.Words.{get_words}
use kvmulate.Machine.{Machine, port_table}
use kvmulate.Machine.Disk.{write_and_read, disk_through_table}
use kvmulate.Tests.Table.{machine}
use kvmulate.Ata.Reading.{WordsRead, read_sectors-WordsRead}
use kvmulate.Ata.Address.{write_address, lba_of_reg-write_address}
use kvmulate.Ata.Geometry.{build_identify_data_lem}

abbrev small_file : File
small_file = record { size = 2048; byte = λ i. i % 256; position = 0 }

abbrev drive : AtaDev
drive = record {
  is_present = true;
  type = DeviceType.disk;
  backingfile = small_file;
  identify = zeros;
  reg = update (update (update zeros reg_sector_count 1) reg_device_head 0xE0) reg_sector_number 2;
  read_buffer = none;
  read_buffer_offset = 0;
  read_buffer_size = 0;
  write_buffer = none;
  write_buffer_offset = 0;
  write_buffer_size = 0;
  write_buffer_lba = 0;
}

abbrev controller : AtaController
controller = record {
  master = drive;
  slave = record drive { is_present = false };
  curr = master_drive;
  calls = [];
}

repeat : ℕ → List ℕ
repeat zero = []
repeat (suc n) = 0xBEEF ∷ repeat n

repeat-AllWords : (n : ℕ) → AllWords (repeat n)
unfolding repeat
repeat-AllWords zero = tt
repeat-AllWords (suc n) = (omega arith, repeat-AllWords n)

length-repeat : (n : ℕ) → length (repeat n) ≡ n
unfolding repeat
length-repeat zero = refl
length-repeat (suc n) = omega (arith, length-repeat n)

one_sector : 2 * length (repeat 256) ≡ 512
one_sector = omega (arith, length-repeat 256)

is_lba_drive : is_lba drive.reg ≡ true
unfolding is_lba
is_lba_drive = refl

one_count : drive.reg reg_sector_count ≢ 0
one_count e = omega arith

write_sectors-Written_example :
    Returns
      (Written controller (repeat 256))
      (pio_outb 0x007 0x30 controller >>= write_words (repeat 256))
write_sectors-Written_example =
    write_sectors-Written controller (repeat 256) refl is_lba_drive one_count one_sector

fits_drive : 2 * 3 ≤ read_size drive.reg
unfolding read_size
fits_drive = omega arith

read_sectors-WordsRead_example :
    Returns (WordsRead controller 3) (pio_outb 0x007 0x20 controller >>= read_words 3)
read_sectors-WordsRead_example = read_sectors-WordsRead controller 3 refl fits_drive

lba_of_reg-write_address_example :
    Returns
      (λ c'.
        (c'.curr ≡ master_drive)
        × (is_lba (curr_dev c').reg ≡ true)
        × (lba_of_reg (curr_dev c').reg ≡ 0xABCDEF1))
      (write_address 0 0xABCDEF1 controller)
lba_of_reg-write_address_example =
    lba_of_reg-write_address 0 0xABCDEF1 controller (omega arith) (omega arith) refl

abbrev exhausted : AtaController
exhausted = record controller {
  master = record drive {
    read_buffer = some (record { size = 512; bytes = zeros });
    read_buffer_offset = 512;
    read_buffer_size = 512;
    reg = update (update zeros 8 0x40) 0xB 0x40;
  };
}

exhausted-Sending : Sending (record { size = 512; bytes = zeros }) exhausted 512 exhausted
exhausted-Sending = record {
  buffer = refl;
  sized = refl;
  given = refl;
  status = refl;
  alternate = refl;
  file = refl;
  calls = refl;
  curr = refl;
}

build_identify_data_lem_example :
    let w = (build_identify_data drive).identify in
    let n = dev_num_sectors small_file in
    (w 60 + 65536 * w 61 ≡ n)
    × (w 57 + 65536 * w 58 ≡ n)
    × (w 1 * (w 3 * w 6) ≤ n)
    × ((n < (w 1 + 1) * (w 3 * w 6)) ⊎ (65536 * (w 3 * w 6) ≤ n))
build_identify_data_lem_example = build_identify_data_lem drive

abbrev last_place : Cells
last_place = update (update (update (update zeros 6 1) 5 44) 7 15) 4 63

abbrev next_place : Cells
next_place = update (update (update (update zeros 6 1) 5 45) 7 0) 4 1

sixteen_heads : 15 ≡ heads 2048 - 1
unfolding heads
sixteen_heads = refl

abbrev guest : Machine
guest = record machine { ata = controller }

-- Two exits' pages, with bytes that say where they stand.
abbrev page : Cells
page i = i % 251

page-IsBytes : IsBytes page
page-IsBytes i = omega arith

disk_through_table_example :
    Returns
      (λ hs.
        Returns
          (λ q. get_words q.0 16 256 ≡ get_words page 0 256)
          (write_and_read hs 256 0 16 page zeros guest))
      port_table
disk_through_table_example =
    disk_through_table guest 256 0 16 page zeros refl is_lba_drive one_count (omega arith)
      page-IsBytes
