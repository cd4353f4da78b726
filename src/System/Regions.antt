-- ===== src/System/Regions.antt =====
-- system.c: how the mapped regions look to the guest, for a kernel that refuses a region exactly if it
-- overlaps one that it has.
pub mod Guest
use kvmulate.Prelude.{
  ℕ, ◌+◌, ◌-◌, ◌%◌, ◌^◌, ◌<◌, ◌≤◌, ◌≡◌, ◌≢◌, inl, inr, refl, ◌∙◌, Bool, true, false, not, ◌&&◌,
  ◌||◌, List, [], ◌∷◌, Option, none, some, ok, Returns, ltb, leb, if◌then◌else◌, copy, arith,
  Bool-cases,
}
use mathlib.Core.Option
use native.Mathlib.Decide.{dec_lt}
use kvmulate.Prelude.Int.{pos}
use kvmulate.Files.{File}
use kvmulate.MemoryMap.{MemoryRegion, region, end_of, map_ram, ram_end}
use kvmulate.System.{
  Backing, ram, image, Slot, Host, Memory, Sys, sys_map, then_map, map_each, map_guest_ram,
  page_length, load_image, load_bios_vga, load_bios, create_memory,
}

abbrev pub overlaps : MemoryRegion → MemoryRegion → Bool
overlaps a b = ltb a.guest_phys_addr (end_of b) && ltb b.guest_phys_addr (end_of a)

abbrev pub is_free : List Slot → MemoryRegion → Bool
is_free [] r = true
is_free (s ∷ ss) r = not (overlaps s.at r) && is_free ss r

-- The answers of KVM_SET_USER_MEMORY_REGION to regions of whole pages and a size that is not 0.
abbrev pub RefusesOverlaps : Host → Type 0
RefusesOverlaps host = (ss : List Slot) (r : MemoryRegion) → host.accepts ss r ≡ is_free ss r

-- The backing of a guest's address, and the offset into it.
abbrev pub guest_at : List Slot → ℕ → Option (Backing × ℕ)
guest_at [] addr = none
guest_at (s ∷ ss) addr =
    if leb s.at.guest_phys_addr addr && ltb addr (end_of s.at)
    then some (s.backing, addr - s.at.guest_phys_addr)
    else guest_at ss addr

module _ (host : Host) (refuses : RefusesOverlaps host) where
  slots-then_map :
      (daddr : ℕ) (saddr : Backing) (size : ℕ) (m : Memory)
      → (then_map host daddr saddr size m).slots ≡ (
          if is_free m.slots (region daddr size)
          then record { slot = m.currmemslot + 1; at = region daddr size; backing = saddr }
            ∷ m.slots
          else m.slots)
  unfolding sys_map
  slots-then_map daddr saddr size m =
      rw (then_map, refuses m.slots (region daddr size))
        (elim (Bool-cases (is_free m.slots (region daddr size))) [
          | inl free ↦ rw free
          | inr taken ↦ rw taken
        ])

  -- The guest sees what it saw, and the new region if it overlaps none.
  pub guest_at-then_map :
      (daddr : ℕ) (saddr : Backing) (size : ℕ) (m : Memory) (addr : ℕ)
      → guest_at (then_map host daddr saddr size m).slots addr ≡ (
          if is_free m.slots (region daddr size)
          then if leb daddr addr && ltb addr (daddr + size)
            then some (saddr, addr - daddr)
            else guest_at m.slots addr
          else guest_at m.slots addr)
  guest_at-then_map daddr saddr size m addr =
      rw (slots-then_map daddr saddr size m)
        (elim (Bool-cases (is_free m.slots (region daddr size))) [
          | inl free ↦ rw free
          | inr taken ↦ rw taken
        ])

  pub is_free-then_map :
      (daddr : ℕ) (saddr : Backing) (size : ℕ) (m : Memory) (r : MemoryRegion)
      → is_free (then_map host daddr saddr size m).slots r ≡ (
          if is_free m.slots (region daddr size)
          then not (overlaps (region daddr size) r) && is_free m.slots r
          else is_free m.slots r)
  is_free-then_map daddr saddr size m r =
      rw (slots-then_map daddr saddr size m)
        (elim (Bool-cases (is_free m.slots (region daddr size))) [
          | inl free ↦ rw free
          | inr taken ↦ rw taken
        ])
