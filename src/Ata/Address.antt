-- ===== src/Ata/Address.antt =====
-- devices/x86/ata/controller.c: how the registers address a sector, by LBA and by cylinder, head
-- and sector.
use kvmulate.Prelude.{
  ℕ, ◌+◌, ◌-◌, ◌*◌, ◌/◌, ◌%◌, ◌^◌, ◌≤◌, ◌<◌, ◌≡◌, ◌∙◌, Outcome, ok, arith, ◌>>=◌, Cells, update,
  true, Returns, bit_or, if◌then◌else◌, ◌==◌,
}
use kvmulate.Prelude.Bits.{or_fields}
use kvmulate.Ata.{
  AtaController, curr_dev, set_curr_dev, reg_device_head, reg_cylinder_high, reg_cylinder_low,
  reg_sector_number, master_drive, slave_drive,
}
use kvmulate.Ata.Commands.{lba_of_reg, chs_of_reg, is_lba}
use kvmulate.Ata.Ports.{pio_outb}
use kvmulate.Ata.Identify.{heads, sectors_per_track}

-- The four fields of the address do not overlap.
lba_sum :
    (reg : Cells)
    → reg reg_cylinder_high < 256
    → reg reg_cylinder_low < 256
    → reg reg_sector_number < 256
    → lba_of_reg reg
      ≡ reg reg_device_head % 16 * 2 ^ 24
        + reg reg_cylinder_high * 2 ^ 16
        + reg reg_cylinder_low * 2 ^ 8
        + reg reg_sector_number
unfolding lba_of_reg
lba_sum reg high low number =
    let h : ℕ = reg reg_device_head % 16 in
    let top : bit_or (h * 2 ^ 24) (reg reg_cylinder_high * 2 ^ 16)
        ≡ (h * 256 + reg reg_cylinder_high) * 2 ^ 16 =
      or_fields 24 h (reg reg_cylinder_high * 2 ^ 16) (omega arith) ∙ omega arith in
    let middle : bit_or ((h * 256 + reg reg_cylinder_high) * 2 ^ 16) (reg reg_cylinder_low * 2 ^ 8)
        ≡ ((h * 256 + reg reg_cylinder_high) * 256 + reg reg_cylinder_low) * 2 ^ 8 =
      or_fields 16 (h * 256 + reg reg_cylinder_high) (reg reg_cylinder_low * 2 ^ 8) (omega arith)
      ∙ omega arith in
    rw (top, middle)
      (or_fields 8 ((h * 256 + reg reg_cylinder_high) * 256 + reg reg_cylinder_low)
          (reg reg_sector_number) number
        ∙ omega arith)

-- The guest's writes of an address of 28 bits for a drive: device and head with the LBA bit, then
-- the sector number and the two cylinder registers.
pub write_address : ℕ → ℕ → AtaController → Outcome AtaController
write_address select lba c =
    pio_outb 0x006 (0xE0 + select * 16 + lba / 2 ^ 24) c
    >>= pio_outb 0x003 (lba % 256)
    >>= pio_outb 0x004 (lba / 2 ^ 8 % 256)
    >>= pio_outb 0x005 (lba / 2 ^ 16 % 256)

abbrev pub picked : ℕ → AtaController → AtaController
picked select c = record c { curr = if select == 1 then slave_drive else master_drive }

abbrev addressed : ℕ → ℕ → Cells → Cells
addressed select lba reg =
    update
      (update
        (update (update reg reg_device_head (0xE0 + select * 16 + lba / 2 ^ 24)) reg_sector_number
          (lba % 256))
        reg_cylinder_low (lba / 2 ^ 8 % 256))
      reg_cylinder_high (lba / 2 ^ 16 % 256)

addressed_lba :
    (select lba : ℕ) (reg : Cells)
    → select < 2
    → lba < 2 ^ 28
    → (is_lba (addressed select lba reg) ≡ true) × (lba_of_reg (addressed select lba reg) ≡ lba)
unfolding is_lba
addressed_lba select lba reg bit small = (
  ground arith,
  lba_sum (addressed select lba reg) (omega arith) (omega arith) (omega arith) ∙ omega arith,
)

write_address_runs :
    (select lba : ℕ) (c : AtaController)
    → select < 2
    → lba < 2 ^ 28
    → (curr_dev (picked select c)).is_present ≡ true
    → let c' = picked select c in
      write_address select lba c
      ≡ ok (set_curr_dev (record (curr_dev c') { reg = addressed select lba (curr_dev c').reg }) c')
unfolding write_address pio_outb
write_address_runs select lba c bit small present = ground arith

-- Writing an LBA of 28 bits, with either drive selected, to the registers of a drive that is
-- present gives a controller whose current drive is that one, in LBA mode, at that LBA.
pub lba_of_reg-write_address :
    (select lba : ℕ) (c : AtaController)
    → select < 2
    → lba < 2 ^ 28
    → (curr_dev (picked select c)).is_present ≡ true
    → Returns
        (λ c'.
          (c'.curr ≡ (if select == 1 then slave_drive else master_drive))
          × (is_lba (curr_dev c').reg ≡ true)
          × (lba_of_reg (curr_dev c').reg ≡ lba))
        (write_address select lba c)
lba_of_reg-write_address select lba c bit small present =
    rw (write_address_runs select lba c bit small present)
      (ground (arith, addressed_lba select lba (curr_dev (picked select c)).reg bit small))

-- In CHS mode, with a sector number of at least 1 and registers that hold bytes, the sector is
-- counted in tracks of 63 and cylinders of 255 heads, with no wrap in the 32 bits.
pub chs_lem :
    (reg : Cells)
    → reg reg_cylinder_high < 256
    → reg reg_cylinder_low < 256
    → reg reg_sector_number < 256
    → 1 ≤ reg reg_sector_number
    → chs_of_reg reg + 1
      ≡ ((reg reg_cylinder_high * 256 + reg reg_cylinder_low) * 255 + reg reg_device_head % 16) * 63
        + reg reg_sector_number
unfolding chs_of_reg
chs_lem reg high low number one =
    rw (or_fields 8 (reg reg_cylinder_high) (reg reg_cylinder_low) low) (omega arith)

-- IDENTIFY reports 16 heads for a disk of up to 8257536 sectors and 63 sectors on a track, but the
-- translation counts 255 heads. So the first sector of a cylinder does not follow the last one of
-- the cylinder before it: 15057 sectors lie between them.
pub chs_gap :
    (sectors cylinder : ℕ) (last next : Cells)
    → sectors ≤ 8257536
    → cylinder + 1 < 65536
    → last reg_cylinder_high ≡ cylinder / 256
    → last reg_cylinder_low ≡ cylinder % 256
    → last reg_device_head ≡ heads sectors - 1
    → last reg_sector_number ≡ sectors_per_track
    → next reg_cylinder_high ≡ (cylinder + 1) / 256
    → next reg_cylinder_low ≡ (cylinder + 1) % 256
    → next reg_device_head ≡ 0
    → next reg_sector_number ≡ 1
    → chs_of_reg next ≡ chs_of_reg last + 1 + 15057
unfolding heads
chs_gap sectors cylinder last next small room h1 l1 d1 s1 h2 l2 d2 s2 =
    let sixteen : heads sectors ≡ 16 = ground arith in
    omega (
      arith,
      sixteen,
      chs_lem last (omega arith) (omega arith) (omega arith) (omega arith),
      chs_lem next (omega arith) (omega arith) (omega arith) (omega arith),
    )
