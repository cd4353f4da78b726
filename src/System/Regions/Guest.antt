-- ===== src/System/Regions/Guest.antt =====
-- system.c: what the guest finds at each physical address.
use kvmulate.Prelude.{
  ℕ, ◌+◌, ◌-◌, ◌%◌, ◌^◌, ◌<◌, ◌≤◌, ◌≡◌, ◌≢◌, inl, inr, refl, ◌∙◌, true, false, ◌&&◌, ◌||◌, List, [],
  Option, none, some, ok, Returns, ltb, leb, if◌then◌else◌, copy, arith, Bool-cases,
}
use mathlib.Core.Option
use native.Mathlib.Decide.{dec_lt}
use kvmulate.Prelude.Int.{pos}
use kvmulate.Files.{File, int_size}
use kvmulate.System.Images.{load_image-accepted}
use kvmulate.MemoryMap.{region, map_ram, ram_end}
use kvmulate.System.{
  Backing, ram, image, Host, Memory, Sys, sys_map, then_map, map_each, map_guest_ram, load_image,
  load_bios_vga, load_bios, create_memory,
}
use kvmulate.System.Regions.{
  overlaps, is_free, RefusesOverlaps, guest_at, guest_at-then_map, is_free-then_map,
}

-- The first MB, with the backing of the block of 128 KB from 0xC0000 on and of the one behind it, and
-- `rest` above.
abbrev pub first_mega : Backing → Backing → ℕ → Option (Backing × ℕ) → Option (Backing × ℕ)
first_mega block bios addr rest =
    if ltb addr 0xA0000
    then some (ram 0, addr)
    else if ltb addr 0xC0000
    then none
    else if ltb addr 0xE0000
    then some (block, addr - 0xC0000)
    else if ltb addr 0x100000
    then some (bios, addr - 0xE0000)
    else rest

-- The guest's physical memory, from address 0 up. An access elsewhere is an exit.
abbrev pub physical : Backing → Backing → ℕ → ℕ → Option (Backing × ℕ)
physical block bios megs addr = first_mega block bios addr (
    if ltb addr 0xE0000000 && ltb addr (ram_end megs)
    then some (ram 2, addr - 0x100000)
    else if ltb addr 0xFFFE0000
    then none
    else if ltb addr 0x100000000
    then some (bios, addr - 0xFFFE0000)
    else if ltb (addr - 0x100000000 + 0xE0100000) (ram_end megs)
    then some (ram 3, addr - 0x100000000)
    else none)

-- The mapping of map_ram shows unless the VGA's BIOS is there.
abbrev pub block_of : Option Backing → Backing
block_of none = ram 1
block_of (some b) = b

module _ (host : Host) (refuses : RefusesOverlaps host) where
  -- The two windows to the BIOS, and the block of the VGA's if there is one.
  abbrev windows : Backing → Memory
  windows bios =
      then_map host 0xFFFE0000 bios 0x20000
        (then_map host 0xE0000 bios 0x20000 (record { currmemslot = 0; slots = [] }))

  abbrev with_images : Backing → Option Backing → Memory
  with_images bios none = windows bios
  with_images bios (some b) = then_map host 0xC0000 b 0x20000 (windows bios)

  -- The first two regions of map_ram.
  abbrev low_ram : Memory → Memory
  low_ram m = then_map host 0xC0000 (ram 1) 0x20000 (then_map host 0x0 (ram 0) 0xA0000 m)

  low_view :
      (bios : Backing) (vga : Option Backing) (addr : ℕ)
      → guest_at (low_ram (with_images bios vga)).slots addr
        ≡ first_mega (block_of vga) bios addr (
            if ltb addr 0xFFFE0000
            then none
            else if ltb addr 0x100000000
            then some (bios, addr - 0xFFFE0000)
            else none)
  low_view bios none addr =
      simp (guest_at-then_map host refuses, is_free-then_map host refuses) (ground arith)
  low_view bios (some b) addr =
      simp (guest_at-then_map host refuses, is_free-then_map host refuses) (ground arith)

  -- A region below does not matter to one above.
  is_free-below :
      (x : ℕ) (b : Backing) (y : ℕ) (m : Memory) (a s : ℕ)
      → x + y ≤ a
      → is_free (then_map host x b y m).slots (region a s) ≡ is_free m.slots (region a s)
  is_free-below x b y m a s h =
      let apart : overlaps (region x y) (region a s) ≡ false = ground arith in
      rw (is_free-then_map host refuses x b y m (region a s), apart)
        (elim (Bool-cases (is_free m.slots (region x y))) [ inl e ↦ rw e | inr e ↦ rw e ])

  windows_free :
      (bios : Backing) (a s : ℕ)
      → 0 < s
      → 0x100000 ≤ a
      → is_free (windows bios).slots (region a s) ≡ (leb (a + s) 0xFFFE0000 || leb 0x100000000 a)
  windows_free bios a s some_size above = simp (is_free-then_map host refuses) (ground arith)

  images_free :
      (bios : Backing) (vga : Option Backing) (a s : ℕ)
      → 0xE0000 ≤ a
      → is_free (with_images bios vga).slots (region a s)
        ≡ is_free (windows bios).slots (region a s)
  images_free bios none a s h = refl
  images_free bios (some b) a s h = is_free-below 0xC0000 b 0x20000 (windows bios) a s h

  low_free :
      (bios : Backing) (vga : Option Backing) (a s : ℕ)
      → 0 < s
      → 0x100000 ≤ a
      → is_free (low_ram (with_images bios vga)).slots (region a s)
        ≡ (leb (a + s) 0xFFFE0000 || leb 0x100000000 a)
  low_free bios vga a s some_size above =
      let m = with_images bios vga in
      is_free-below 0xC0000 (ram 1) 0x20000 (then_map host 0x0 (ram 0) 0xA0000 m) a s (omega arith)
      ∙ is_free-below 0x0 (ram 0) 0xA0000 m a s (omega arith)
      ∙ images_free bios vga a s (omega arith)
      ∙ windows_free bios a s some_size above

  module _ (bios : Backing) (vga : Option Backing) (megs addr : ℕ) (lo : 2 ≤ megs)
      (hi : megs < 2 ^ 32) where
    abbrev Seen : Type 0
    Seen =
        guest_at (map_guest_ram host megs (with_images bios vga)).slots addr
        ≡ physical (block_of vga) bios megs addr

    upto : ram_end megs ≤ 0xE0000000 → Seen
    unfolding map_guest_ram map_each map_ram
    upto small =
        let t : leb (ram_end megs) 0xE0000000 ≡ true = ground arith in
        let e : (ram_end megs + 2 ^ 64 - 0x100000) % 2 ^ 64 ≡ ram_end megs - 0x100000 =
          omega arith in
        rw (t, e)
          (rw (guest_at-then_map host refuses) (
            rw
              (
                low_free bios vga 0x100000 (ram_end megs - 0x100000) (omega arith) (omega arith),
                low_view bios vga addr,
              )
              (ground arith)))

    above : megs ≢ 3585 → 0xE0000000 < ram_end megs → Seen
    unfolding map_guest_ram map_each map_ram
    above other large =
        let t : leb (ram_end megs) 0xE0000000 ≡ false = ground arith in
        let small : megs < 4294967296 = omega (arith, hi) in
        let e : (ram_end megs + 2 ^ 64 - 0xE0100000) % 2 ^ 64 ≡ ram_end megs - 0xE0100000 =
          omega arith in
        let m = low_ram (with_images bios vga) in
        let n = then_map host 0x100000 (ram 2) (0xE0000000 - 0x100000) m in
        let f : is_free n.slots (region 0x100000000 (ram_end megs - 0xE0100000)) ≡ true =
          is_free-below 0x100000 (ram 2) (0xE0000000 - 0x100000) m 0x100000000
            (ram_end megs - 0xE0100000) (omega arith)
          ∙ low_free bios vga 0x100000000 (ram_end megs - 0xE0100000) (omega arith) (omega arith)
          ∙ ground arith in
        rw (t, e)
          (rw
            (guest_at-then_map host refuses 0x100000000 (ram 3) (ram_end megs - 0xE0100000) n addr)
            (rw f (
              rw (guest_at-then_map host refuses 0x100000 (ram 2) (0xE0000000 - 0x100000) m addr) (
                rw
                  (
                    low_free bios vga 0x100000 (0xE0000000 - 0x100000) (omega arith) (omega arith),
                    low_view bios vga addr,
                  )
                  (ground arith)))))

abbrev pub image_of : Host → File → Backing
image_of host f = image (copy host.buffer 0 f.byte 0 f.size)

abbrev pub FitsBlock : Option File → Type 0
FitsBlock none = Unit {0}
FitsBlock (some f) = f.size ≤ 0x20000

abbrev pub IsSome : {A : Type 0} → (A → Type 0) → Option A → Type 0
IsSome P none = ⊥
IsSome P (some a) = P a

-- An image of the size of the block or less is read as it is.
load_image-small :
    (host : Host) (f : File) → f.size ≤ 0x20000 → load_image host.buffer f ≡ ok (image_of host f)
load_image-small host f h =
    let n : int_size f ≡ f.size = omega (arith, h) in
    let e : leb f.size 0x20000 ≡ true = ground (arith, h) in
    load_image-accepted host.buffer f ∙ rw (n, e) refl

module _ (host : Host) where
  abbrev empty : Memory
  empty = record { currmemslot = 0; slots = [] }

  load_bios-with_images :
      (refuses : RefusesOverlaps host) (f : File) (vga : Option File)
      → host.seabios ≡ some f
      → host.vgabios ≡ vga
      → FitsBlock (some f)
      → FitsBlock vga
      → load_bios host empty
        ≡ ok (pos 0, with_images host refuses (image_of host f) (Option.map (image_of host) vga))
  unfolding load_bios load_bios_vga sys_map
  load_bios-with_images refuses f none e g small fits =
      rw (e, load_bios) (rw (load_image-small host f small, g, load_bios_vga))
  load_bios-with_images refuses f (some v) e g small fits =
      rw (e, load_bios)
        (rw (load_image-small host f small, g, load_bios_vga, load_image-small host v fits))

  -- With a BIOS image that fits its 128 KB, and a VGA BIOS image that does if there is one, 2 MB of
  -- memory or more (but 3585 MB), and a kernel that refuses a region exactly if it overlaps an
  -- earlier one: the machine is created, and the guest finds the memory that `physical` describes:
  -- the BIOS below 1 MB and below 4 GB, the memory of map_ram around it, and from 0xC0000 on the VGA
  -- BIOS if there is one, in whose place the mapping of map_ram is then refused.
  pub guest_memory :
      (f : File) (cpus : List ℕ) (megs addr : ℕ)
      → RefusesOverlaps host
      → host.seabios ≡ some f
      → f.size ≤ 0x20000
      → FitsBlock host.vgabios
      → 2 ≤ megs
      → megs < 2 ^ 32
      → megs ≢ 3585
      → Returns
          (IsSome (λ (sys : Sys).
            guest_at sys.memory.slots addr
            ≡ physical
                (block_of (Option.map (image_of host) host.vgabios))
                (image_of host f)
                megs
                addr))
          (create_memory host megs cpus)
  unfolding create_memory
  guest_memory f cpus megs addr refuses e small fits lo hi other =
      rw (load_bios-with_images refuses f host.vgabios e refl small fits)
        (elim (dec_lt 0xE0000000 (ram_end megs)) [
          | yes large ↦
              above host refuses (image_of host f) (Option.map (image_of host) host.vgabios) megs
                addr lo hi other large
          | no not_large ↦
              upto host refuses (image_of host f) (Option.map (image_of host) host.vgabios) megs
                addr lo hi (omega arith)
        ])
