-- ===== src/Dma/Program.antt =====
-- devices/x86/i8237-dma.c: what a guest programs into channel 2 is where and how much it gets.
use kvmulate.Prelude.{
  ℕ, ◌+◌, ◌-◌, ◌*◌, ◌/◌, ◌%◌, ◌^◌, ◌<◌, ◌≡◌, ◌∙◌, ap, Outcome, ok, abort, fault, ◌>>=◌, leb,
  if◌then◌else◌, Cells, update, arith, Returns, copy, ◌&&◌, ◌↔◌,
}
use kvmulate.Prelude.Bits.{or_fields}
use kvmulate.Dma.{
  Dma, Channels, Chip, first, second, i8237_outb, i8237_page_outb, dest_offset, transfer_count,
  dma_transfer_from_device, register_of, write_register, write_cell,
}
use kvmulate.LowMem.{LowMem, sys_get_low_mem, copy_to_mem}

-- The guest's writes for a transfer on channel 2: address and count, low byte first, and the page.
pub program : ℕ → ℕ → Dma → Outcome Dma
program address count d =
    i8237_outb first 0x4 (address % 256) d
    >>= i8237_outb first 0x4 (address / 256 % 256)
    >>= i8237_outb first 0x5 (count % 256)
    >>= i8237_outb first 0x5 (count / 256 % 256)
    >>= i8237_page_outb 1 (address / 65536 % 256)

dest_sum :
    (d : Dma)
    → d.ctl0.regs 9 < 256
    → d.ctl0.regs 8 < 256
    → dest_offset d ≡ d.page 1 * 65536 + d.ctl0.regs 9 * 256 + d.ctl0.regs 8
unfolding dest_offset
dest_sum d high low = rw (or_fields 16 (d.page 1) (d.ctl0.regs 9 * 2 ^ 8) (omega arith)) (
    let e : d.page 1 * 2 ^ 16 + d.ctl0.regs 9 * 2 ^ 8 ≡ (d.page 1 * 256 + d.ctl0.regs 9) * 2 ^ 8 =
      omega arith in
    rw e (or_fields 8 (d.page 1 * 256 + d.ctl0.regs 9) (d.ctl0.regs 8) low ∙ omega arith))

count_sum :
    (d : Dma) → d.ctl0.regs 10 < 256 → transfer_count d ≡ d.ctl0.regs 11 * 256 + d.ctl0.regs 10
unfolding transfer_count
count_sum d low = or_fields 8 (d.ctl0.regs 11) (d.ctl0.regs 10) low

-- The two accesses to a register whose flip-flop is even.
abbrev pair : ℕ → ℕ → ℕ → Channels → Channels
pair r low high c =
    let counts = update c.flipflop r (c.flipflop r + 1) in
    record c {
      regs = update (update c.regs (2 * r + 0) low) (2 * r + 1) high;
      flipflop = update counts r (counts r + 1);
    }

write_at :
    (r bit v : ℕ) (c : Channels)
    → r < 7
    → bit < 2
    → c.flipflop r % 2 ≡ bit
    → write_register r v c
      ≡ ok (record c {
        regs = update c.regs (2 * r + bit) v;
        flipflop = update c.flipflop r (c.flipflop r + 1);
      })
write_at r bit v c small fits e =
    let enters : write_register r v c ≡ write_cell r (c.flipflop r) (c.flipflop r % 2) v c =
      unfold write_register in ground arith in
    let stores : write_cell r (c.flipflop r) bit v c
        ≡ ok (record c {
          regs = update c.regs (2 * r + bit) v;
          flipflop = update c.flipflop r (c.flipflop r + 1);
        }) =
      unfold write_cell in ground arith in
    enters ∙ ap (λ (b : ℕ). write_cell r (c.flipflop r) b v c) e ∙ stores

outb_register :
    (r v : ℕ) (d : Dma) (c : Channels)
    → r < 7
    → write_register r v d.ctl0 ≡ ok c
    → i8237_outb first r v d ≡ ok (record d { ctl0 = c })
unfolding i8237_outb
outb_register r v d c small e = ground arith

write_pair :
    (r low high : ℕ) (d : Dma)
    → r < 7
    → d.ctl0.flipflop r % 2 ≡ 0
    → (i8237_outb first r low d >>= i8237_outb first r high)
      ≡ ok (record d { ctl0 = pair r low high d.ctl0 })
write_pair r low high d small even =
    rw (outb_register r low d _ small (write_at r 0 low d.ctl0 small (omega arith) even))
      (outb_register r high _ _ small (write_at r 1 high _ small (omega arith) (ground arith)))

-- Where the flip-flops of the two registers are even before, programming an address of 24 bits and
-- a count of 16 makes them the address and the count of channel 2's next transfer, and leaves the
-- flip-flops even.
pub program_lem :
    (address count : ℕ) (d : Dma)
    → address < 2 ^ 24
    → count < 2 ^ 16
    → d.ctl0.flipflop 4 % 2 ≡ 0
    → d.ctl0.flipflop 5 % 2 ≡ 0
    → Returns
        (λ d'.
          (dest_offset d' ≡ address)
          × (transfer_count d' ≡ count)
          × (d'.ctl0.flipflop 4 % 2 ≡ 0)
          × (d'.ctl0.flipflop 5 % 2 ≡ 0))
        (program address count d)
unfolding program i8237_page_outb
program_lem address count d small few even4 even5 =
    let d1 : Dma = record d { ctl0 = pair 4 (address % 256) (address / 256 % 256) d.ctl0 } in
    let d2 : Dma = record d1 {
      ctl0 = pair 5 (count % 256) (count / 256 % 256) d1.ctl0;
      page = update d.page 1 (address / 65536 % 256);
    } in
    rw (write_pair 4 (address % 256) (address / 256 % 256) d (omega arith) even4) (
      rw (write_pair 5 (count % 256) (count / 256 % 256) d1 (omega arith) even5) (
        dest_sum d2 (omega arith) (omega arith) ∙ omega arith,
        count_sum d2 (omega arith) ∙ omega arith,
        omega arith,
        omega arith,
      ))

-- A transfer on channel 2, whose registers hold bytes, of the `n` bytes of its count plus one to
-- its address `a`: it fills that many bytes of one of the two regions of low memory if they lie
-- inside it. An address of 1 MB or more is refused by an assertion. Every other transfer writes
-- outside both regions.
pub dma_transfer_from_device_lem :
    (source : Cells) (d : Dma) (m : LowMem)
    → d.ctl0.regs 9 < 256
    → d.ctl0.regs 8 < 256
    → d.ctl0.regs 10 < 256
    → d.ctl0.regs 11 < 256
    → d.page 1 < 256
    → let a = d.page 1 * 65536 + d.ctl0.regs 9 * 256 + d.ctl0.regs 8 in
      let n = d.ctl0.regs 11 * 256 + d.ctl0.regs 10 + 1 in
      dma_transfer_from_device 2 source d m ≡ (
        if leb (a + n) 0xA0000
        then ok (record m { low = copy m.low a source 0 n })
        else if leb 0xC0000 a && leb (a + n) 0xE0000
        then ok (record m { high = copy m.high (a - 0xC0000) source 0 n })
        else if leb 0x100000 a
        then abort
        else fault)
unfolding dma_transfer_from_device sys_get_low_mem copy_to_mem
dma_transfer_from_device_lem source d m h9 h8 h10 h11 page =
    rw (dest_sum d h9 h8, count_sum d h10) (ground arith)

-- The guest's reset of the flip-flops works for the registers 0 and 1 only: the count of every
-- other register, so also of the address and the count of channel 2, is left as it was.
pub reset_flipflops :
    (d : Dma) (r : ℕ)
    → Returns
        (λ d'.
          (d'.ctl0.flipflop 0 % 2 ≡ 0)
          × (d'.ctl0.flipflop 1 % 2 ≡ 0)
          × (d'.ctl0.flipflop (r + 2) ≡ d.ctl0.flipflop (r + 2))
          × (d'.ctl0.regs ≡ d.ctl0.regs))
        (i8237_outb first 0xC 0xFF d)
unfolding i8237_outb
reset_flipflops d r = ground arith

-- A write to a port of either chip leaves the arrays alone or stays inside them, but for the one
-- that the source counts as register 7: there are seven registers, 0 to 6.
pub register_bounds :
    (chip : Chip) (offset val : ℕ) (d : Dma)
    → (i8237_outb chip offset val d ≡ fault) ↔ (register_of chip offset ≡ 7)
unfolding i8237_outb write_register write_cell
register_bounds first offset val d = (λ h. ground arith, λ h. ground arith)
register_bounds second offset val d = (λ h. ground arith, λ h. ground arith)
