-- ===== src/Ata.antt =====
-- devices/x86/ata/controller.c: the ATA controller at the ports from 0x1F0 on, with its two drives.
-- A handler is given the port's offset. `reg` and `identify` are indexed by constants within their
-- sizes only; every access to a buffer is checked against the block that was allocated.
pub mod Commands
pub mod ConfigSpace
pub mod Identify
pub mod Ports
pub mod Words
pub mod Transfer
pub mod Reading
pub mod Address
pub mod Drives
pub mod Geometry
use kvmulate.Prelude.{
  ℕ, ◌+◌, ◌-◌, ◌*◌, ◌/◌, ◌%◌, Bool, true, false, List, Option, none, some, Outcome, ok, fault,
  Cells, zeros, update, fill,
}
use kvmulate.Irq.{IrqLevel, irq_set}
use kvmulate.Files.{File}

pub data DeviceType : Type 0 where
  invalid disk dvd_rom : DeviceType

-- A block from calloc.
pub record Block : Type 0 where
  pub size : ℕ
  pub bytes : Cells

pub record AtaDev : Type 0 where
  pub is_present : Bool
  pub type : DeviceType
  pub backingfile : File
  pub identify : Cells
  pub reg : Cells
  pub read_buffer : Option Block
  pub read_buffer_offset : ℕ
  pub read_buffer_size : ℕ
  pub write_buffer : Option Block
  pub write_buffer_offset : ℕ
  pub write_buffer_size : ℕ
  pub write_buffer_lba : ℕ

-- What pCurrDev points to.
pub data Drive : Type 0 where
  master_drive slave_drive : Drive

pub record AtaController : Type 0 where
  pub master : AtaDev
  pub slave : AtaDev
  pub curr : Drive
  pub calls : List IrqLevel

abbrev pub dev_at : Drive → AtaController → AtaDev
dev_at master_drive c = c.master
dev_at slave_drive c = c.slave

abbrev pub set_dev_at : Drive → AtaDev → AtaController → AtaController
set_dev_at master_drive d c = record c { master = d }
set_dev_at slave_drive d c = record c { slave = d }

abbrev pub curr_dev : AtaController → AtaDev
curr_dev c = dev_at c.curr c

abbrev pub set_curr_dev : AtaDev → AtaController → AtaController
set_curr_dev d c = set_dev_at c.curr d c

-- The indices of `reg`.
abbrev pub reg_error : ℕ
reg_error = 0x01

abbrev pub reg_features : ℕ
reg_features = 0x02

abbrev pub reg_sector_count : ℕ
reg_sector_count = 0x03

abbrev pub reg_sector_number : ℕ
reg_sector_number = 0x04

abbrev pub reg_cylinder_low : ℕ
reg_cylinder_low = 0x05

abbrev pub reg_cylinder_high : ℕ
reg_cylinder_high = 0x06

abbrev pub reg_device_head : ℕ
reg_device_head = 0x07

abbrev pub reg_status : ℕ
reg_status = 0x08

abbrev pub reg_command : ℕ
reg_command = 0x09

abbrev pub reg_device_control : ℕ
reg_device_control = 0x0A

abbrev pub reg_alternate_status : ℕ
reg_alternate_status = 0x0B

abbrev pub status_drdy : ℕ
status_drdy = 0x40

abbrev pub status_drq : ℕ
status_drq = 0x08

abbrev pub status_err : ℕ
status_err = 0x01

abbrev pub error_abrt : ℕ
error_abrt = 0x04

-- reg[REG_STATUS] = v; reg[REG_ALTERNATE_STATUS] = reg[REG_STATUS]
abbrev pub set_status : ℕ → Cells → Cells
set_status v reg = update (update reg reg_status v) reg_alternate_status v

-- reg[REG_ERROR] = 0, and the status
abbrev pub set_ok_status : ℕ → Cells → Cells
set_ok_status v reg = set_status v (update reg reg_error 0)
