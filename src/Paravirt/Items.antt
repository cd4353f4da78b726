-- ===== src/Paravirt/Items.antt =====
-- devices/x86/qemu_paravirt.c: what a guest reads of an item, and the memory map that it is told.
use kvmulate.Prelude.{
  ℕ, zero, suc, ◌+◌, ◌^◌, ◌<◌, ◌≤◌, ◌≡◌, refl, ◌∙◌, List, [], ◌∷◌, Outcome, ok, abort, ◌>>=◌, arith,
  Returns, Cells, copy, ltb, leb, Bool-cases, inl, inr, if◌then◌else◌,
}
use mathlib.Core.Path.{ap₂}
use kvmulate.Mmio.{get64}
use kvmulate.MemoryMap.{map_ram, end_of, low_extended}
use kvmulate.Paravirt.{Paravirt, qemupara_inb, qemupara_outw, select_item, e820_table}

pub read_bytes : ℕ → Paravirt → Outcome (List ℕ × Paravirt)
read_bytes zero p = ok ([], p)
read_bytes (suc n) p = do q ← qemupara_inb p; r ← read_bytes n q.1; ok (q.0 ∷ r.0, r.1)

pub bytes_of : Cells → ℕ → ℕ → List ℕ
bytes_of a i zero = []
bytes_of a i (suc n) = a i ∷ bytes_of a (i + 1) n

-- Reads from the offset on give the buffer's bytes while they last, and then end in an assertion.
read_bytes-bytes_of :
    (n : ℕ) (p : Paravirt)
    → p.off ≤ 1024
    → read_bytes n p ≡ (
        if leb (p.off + n) 1024
        then ok (bytes_of p.buff p.off n, record p { off = p.off + n })
        else abort)
unfolding read_bytes bytes_of qemupara_inb
read_bytes-bytes_of zero p inside = ground arith
read_bytes-bytes_of (suc n) p inside =
    let rest = read_bytes-bytes_of n (record p { off = p.off + 1 }) in
    elim (Bool-cases (ltb p.off 1024)) [
      | inl more ↦ ground (arith, more, rest)
      | inr full ↦ ground (arith, full)
    ]

bytes_of_ext :
    (n : ℕ) (a b : Cells) (i : ℕ)
    → ((j : ℕ) → j < i + n → a j ≡ b j)
    → bytes_of a i n ≡ bytes_of b i n
unfolding bytes_of
bytes_of_ext zero a b i same = refl
bytes_of_ext (suc n) a b i same =
    ap₂ ◌∷◌ (same i (omega arith)) (bytes_of_ext n a b (i + 1) (λ j h. same j (omega arith)))

-- Whatever was selected or read before: after selecting the memory map the guest reads the 64 bytes
-- of the table. A guest that reads more than 1024 bytes after it is stopped by an assertion.
pub read_bytes-qemupara_outw :
    (p : Paravirt)
    → Returns (λ q. q.0 ≡ bytes_of e820_table 0 64) (qemupara_outw 0 0x8003 p >>= read_bytes 64)
      × ((n : ℕ) → 1024 < n → (qemupara_outw 0 0x8003 p >>= read_bytes n) ≡ abort)
unfolding qemupara_outw select_item
read_bytes-qemupara_outw p =
    let shown = record p { reg = 0x8003; off = 0; buff = copy p.buff 0 e820_table 0 64 } in
    (
      rw (read_bytes-bytes_of 64 shown (omega arith))
          (bytes_of_ext 64 shown.buff e820_table 0 (λ j h. ground arith)),
      λ n many. read_bytes-bytes_of n shown (omega arith) ∙ ground arith,
    )

-- The table's second entry is memory from 1 MB up to 0xE0000000, whatever the size of the memory:
-- from 3584 MB on that is the end of the region that is mapped at 1 MB, and with less memory (1 MB at
-- least) the mapped region ends before.
pub e820_gap :
    (megs : ℕ)
    → 1 ≤ megs
    → megs < 2 ^ 32
    → let table_end = get64 e820_table 24 + get64 e820_table 32 in
      (table_end ≡ 0xE0000000)
      × (3584 ≤ megs → end_of (low_extended (map_ram megs)) ≡ table_end)
      × (megs < 3584 → end_of (low_extended (map_ram megs)) < table_end)
unfolding e820_table map_ram
e820_gap megs some limit = (refl, λ large. ground arith, λ small. ground arith)
