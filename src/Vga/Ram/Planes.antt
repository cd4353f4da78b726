-- ===== src/Vga/Ram/Planes.antt =====
-- devices/x86/vga/ram.c: what a write leaves in the planes, and accesses above 4 GB.
use kvmulate.Prelude.{
  ℕ, zero, suc, ◌+◌, ◌/◌, ◌%◌, ◌^◌, ◌<◌, ◌≤◌, ◌≡◌, [], ◌∷◌, some, Outcome, ok, fault, arith, ◌∙◌,
  Bool, ap, ==_iff, ==_false, ◌≢◌, Bool-cases, true, false, inl, inr, leb, ltb, Returns-map,
  Returns->>=, store, Returns, ◌==◌, if◌then◌else◌, Cells, update, ◌&&◌,
}
use mathlib.Core.Path.{subst}
use kvmulate.Mmio.{mmio_read, get_device}
use kvmulate.Mmio.Lookup.{get_device_alias}
use kvmulate.Vga.Ram.{
  Screen, readb, writeb, write_planes, set_plane, gfxram, plane_size, vram_offset,
}

abbrev pub bit : ℕ → ℕ → Bool
bit m q = m / 2 ^ q % 2 == 1

abbrev after_plane : ℕ → (Cells → Cells) → (ℕ → Cells) → Bool → ℕ → Cells
after_plane p f planes true = set_plane planes p (f (planes p))
after_plane p f planes false = planes

abbrev pub after_planes : ℕ → ℕ → ℕ → (Cells → Cells) → (ℕ → Cells) → ℕ → ℕ → ℕ
after_planes m n p f planes q i =
    if leb p q && (ltb q (p + n) && bit m q) then f (planes q) i else planes q i

same_plane :
    (m n p i : ℕ) (f : Cells → Cells) (planes : ℕ → Cells) (b : Bool)
    → bit m p ≡ b
    → after_planes m n (p + 1) f (after_plane p f planes b) p i
      ≡ after_planes m (suc n) p f planes p i
same_plane m n p i f planes true at = ground (arith, at)
same_plane m n p i f planes false at = ground (arith, at)

other_plane :
    (m n p q i : ℕ) (f : Cells → Cells) (planes : ℕ → Cells) (b : Bool)
    → q ≢ p
    → after_planes m n (p + 1) f (after_plane p f planes b) q i
      ≡ after_planes m (suc n) p f planes q i
other_plane m n p q i f planes true other =
    let kept : after_plane p f planes true q ≡ planes q =
      ap (λ (b : Bool). if b then f (planes p) else planes q) (==_false q p other) in
    ap (λ (c : Cells). if leb (p + 1) q && (ltb q (p + 1 + n) && bit m q) then f c i else c i) kept
    ∙ ground arith
other_plane m n p q i f planes false other = ground arith

-- Plane `p` is done; the others of the round come after it.
next_plane :
    (m n p q i : ℕ) (f : Cells → Cells) (planes : ℕ → Cells) (b : Bool)
    → bit m p ≡ b
    → after_planes m n (p + 1) f (after_plane p f planes b) q i
      ≡ after_planes m (suc n) p f planes q i
next_plane m n p q i f planes b at = elim (Bool-cases (q == p)) [
  | inl same ↦
      let e : p ≡ q = omega (arith, (==_iff q p).0 same) in
      subst
        (λ (k : ℕ).
          after_planes m n (p + 1) f (after_plane p f planes b) k i
          ≡ after_planes m (suc n) p f planes k i)
        e (same_plane m n p i f planes b at)
  | inr other ↦ other_plane m n p q i f planes b (λ e. ground (arith, other, e))
]

pub write_planes_lem :
    (n p m : ℕ) (put : Cells → Outcome Cells) (f : Cells → Cells) (planes : ℕ → Cells)
    → ((c : Cells) → put c ≡ ok (f c))
    → Returns
        (λ r. (q i : ℕ) → r q i ≡ after_planes m n p f planes q i)
        (write_planes n p m put planes)
unfolding write_planes
write_planes_lem zero p m put f planes total = λ q i. ground arith
write_planes_lem (suc n) p m put f planes total = elim (Bool-cases (bit m p)) [
  | inl on ↦
      rw (on, total (planes p))
        (Returns-map
          (λ r. (q i : ℕ) → r q i ≡ after_planes m n (p + 1) f (after_plane p f planes true) q i)
          (λ r. (q i : ℕ) → r q i ≡ after_planes m (suc n) p f planes q i)
          (write_planes n (p + 1) m put (after_plane p f planes true))
          (write_planes_lem n (p + 1) m put f (after_plane p f planes true) total)
          (λ r h q i. h q i ∙ next_plane m n p q i f planes true on))
  | inr off ↦ rw off (
      Returns-map
        (λ r. (q i : ℕ) → r q i ≡ after_planes m n (p + 1) f (after_plane p f planes false) q i)
        (λ r. (q i : ℕ) → r q i ≡ after_planes m (suc n) p f planes q i)
        (write_planes n (p + 1) m put (after_plane p f planes false))
        (write_planes_lem n (p + 1) m put f (after_plane p f planes false) total)
        (λ r h q i. h q i ∙ next_plane m n p q i f planes false off))
]

-- A byte written to the window: each of the four planes whose bit of the map mask is set holds it at
-- the offset into the window, and no other byte of the planes changes. So the byte is read back
-- exactly if bit 0 of the mask is set, and what plane 0 held before otherwise.
pub readb-writeb :
    (s : Screen) (offset val : ℕ)
    → offset < 0x20000
    → Returns
        (λ t.
          ((q i : ℕ)
            → q < 4
            → t.planes q i
              ≡ (if s.vga.seq_reg 2 / 2 ^ q % 2 == 1 && i == offset then val else s.planes q i))
          × (readb t (0xA0000 + offset)
              ≡ ok (if s.vga.seq_reg 2 % 2 == 1 then val else s.planes 0 offset, t)))
        (writeb s (0xA0000 + offset) val)
unfolding readb writeb write_planes
readb-writeb s offset val inside =
    let put = λ (c : Cells). store plane_size c (vram_offset (0xA0000 + offset)) val in
    let at : vram_offset (0xA0000 + offset) ≡ offset = omega arith in
    let done =
      write_planes_lem 4 0 (s.vga.seq_reg 2) put (λ c. update c offset val) s.planes
        (λ c. ground (arith, at)) in
    Returns->>=
      (λ r.
        (q i : ℕ)
        → r q i ≡ after_planes (s.vga.seq_reg 2) 4 0 (λ c. update c offset val) s.planes q i)
      _ (write_planes 4 0 (s.vga.seq_reg 2) put s.planes)
      (λ planes. ok (record s { planes = planes })) done
      (λ r h. (λ q i low. h q i ∙ ground arith, ground (arith, at, h 0 offset)))

-- An address of 64 bits above 4 GB whose lower half lies in the window is dispatched to it, but the
-- offset is computed from the whole address: every read of a byte there leaves the plane.
pub high_access :
    (s : Screen) (bytes : Cells) (address : ℕ)
    → 2 ^ 32 ≤ address
    → address < 2 ^ 64
    → get_device (address % 2 ^ 32) (gfxram ∷ []) ≡ some gfxram
    → mmio_read (gfxram ∷ []) address 1 bytes s ≡ fault
unfolding mmio_read readb
high_access s bytes address high wide window =
    let found = get_device_alias address (gfxram ∷ []) (omega arith, tt) ∙ window in
    ground (arith, found)
