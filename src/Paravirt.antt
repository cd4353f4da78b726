-- ===== src/Paravirt.antt =====
-- devices/x86/qemu_paravirt.c: QEMU's firmware configuration, a selector at port 0x510 and the bytes
-- of the selected item at port 0x511. The handlers are given offsets from 0x510.
pub mod Items
use kvmulate.Prelude.{
  ℕ, ◌+◌, ◌-◌, ◌%◌, ◌/◌, ◌^◌, Outcome, ok, abort, fault, ◌>>=◌, ltb, ◌==◌, if◌then◌else◌, Cells,
  zeros, update, fetch, copy, put16, put32,
}

pub record Paravirt : Type 0 where
  pub reg : ℕ
  pub off : ℕ
  pub buff : Cells

abbrev pub buff_size : ℕ
buff_size = 1024

-- Every port of the two reads the next byte.
pub qemupara_inb : Paravirt → Outcome (ℕ × Paravirt)
qemupara_inb p =
    if ltb p.off 1024
    then fetch buff_size p.buff p.off >>= (λ v. ok (v, record p { off = p.off + 1 }))
    else abort

abbrev pub qemupara_inw : Paravirt → Outcome (ℕ × Paravirt)
qemupara_inw p = abort

abbrev pub qemupara_inl : Paravirt → Outcome (ℕ × Paravirt)
qemupara_inl p = abort

abbrev pub qemupara_outb : Paravirt → Outcome Paravirt
qemupara_outb p = abort

abbrev pub qemupara_outl : Paravirt → Outcome Paravirt
qemupara_outl p = abort

abbrev put64 : Cells → ℕ → ℕ → Cells
put64 a i v = put32 (put32 a i (v % 2 ^ 32)) (i + 4) (v / 2 ^ 32)

-- entry[n] of the table, of 20 bytes.
abbrev put_entry : Cells → ℕ → ℕ → ℕ → ℕ → Cells
put_entry a at addr length type = put32 (put64 (put64 a at addr) (at + 8) length) (at + 16) type

-- E820_RAM is 1, E820_RESERVED is 2.
pub e820_table : Cells
e820_table =
    put_entry
      (put_entry (put_entry (put32 zeros 0 3) 4 0x0 0xA0000 1) 24 0x100000 (0xE0000000 - 0x100000)
        1)
      44 0xFFFBC000 (0x100000000 - 0xFFFBC000) 2

abbrev qemu_text : Cells → Cells
qemu_text a = update (update (update (update a 0 0x51) 1 0x45) 2 0x4D) 3 0x55

-- ret.off = 0, with other contents of the buffer.
abbrev item : Cells → Paravirt → Paravirt
item buff p = record p { off = 0; buff = buff }

-- The item 0xD does not set the offset back.
pub select_item : ℕ → Paravirt → Outcome Paravirt
unfolding e820_table
select_item val p =
    if val == 0x00
    then ok (item (qemu_text p.buff) p)
    else if val == 0xD
    then ok (record p { buff = put32 p.buff 0 1 })
    else if val == 0xE
    then ok (item (update (update p.buff 0 0) 1 1) p)
    else if val == 0x8000
    then ok (item p.buff p)
    else if val == 0x8003
    then ok (item (copy p.buff 0 e820_table 0 64) p)
    else if val == 0x19
    then ok (item (put32 p.buff 0 0) p)
    else if val == 0x0F
    then ok (item (put32 p.buff 0 32) p)
    else if val == 0x8001
    then ok (item (put16 p.buff 0 0) p)
    else if val == 0x8002
    then ok (item (update p.buff 0 0) p)
    else abort

pub qemupara_outw : ℕ → ℕ → Paravirt → Outcome Paravirt
qemupara_outw port val p = if port == 0x00 then select_item val (record p { reg = val }) else abort
