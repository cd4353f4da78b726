-- ===== src/System.antt =====
-- system.c: the creation of the virtual machine, and what the guest's memory is made of. KVM and the
-- host are parameters: what open, mmap and the ioctls answer, and the two image files.
pub mod Regions
pub mod Creation
pub mod Cpuid
pub mod Images
pub mod Run
use kvmulate.Prelude.{
  ℕ, zero, suc, ◌+◌, ◌-◌, ◌*◌, ◌/◌, ◌%◌, ◌^◌, ◌<◌, ◌≤◌, ◌≡◌, ◌↔◌, Bool, true, false, not, ◌&&◌,
  ◌||◌, List, [], ◌∷◌, ◌++◌, Option, none, some, Outcome, ok, abort, fault, assert, ◌>>=◌, ◌>>◌,
  ltb, leb, ◌==◌, if◌then◌else◌, Cells, copy,
}
use kvmulate.Prelude.Int.{ℤ, pos, negsuc, at_most}
use kvmulate.Files.{File, file_length, read_image}
use kvmulate.MemoryMap.{MemoryRegion, region, map_ram, ram_end}

-- What backs a region: the anonymous mappings of map_ram, or a buffer with an image.
pub data Backing : Type 0 where
  ram : ℕ → Backing
  image : Cells → Backing

-- A region that the kernel accepted.
pub record Slot : Type 0 where
  pub slot : ℕ
  pub at : MemoryRegion
  pub backing : Backing

-- What the program asks of the host: whether each call succeeds, and the contents of the files
-- seabios.rom and vgabios.rom if they can be opened. A buffer from posix_memalign holds `buffer`.
pub record Host : Type 0 where
  pub opens_kvm : Bool
  pub api_version : ℕ
  pub creates_vm : Bool
  pub sets_tss_addr : Bool
  pub creates_irqchip : Bool
  pub creates_pit : Bool
  pub creates_vcpu : List ℕ → ℕ → Bool
  pub tells_mmap_size : Bool
  pub maps_vcpu : Bool
  pub sets_cpuid : Bool
  pub accepts : List Slot → MemoryRegion → Bool
  pub seabios : Option File
  pub vgabios : Option File
  pub buffer : Cells

-- The fields of sys_t that the memory map is about, with the accepted regions, the newest first.
pub record Memory : Type 0 where
  pub currmemslot : ℕ
  pub slots : List Slot

module _ (host : Host) where
  -- The slot's number is used up also where the kernel refuses the region.
  unfoldable pub sys_map : ℕ → Backing → ℕ → Memory → ℤ × Memory
  sys_map daddr saddr size m =
      let k = m.currmemslot + 1 in
      if host.accepts m.slots (region daddr size)
      then (
        pos 0,
        record {
          currmemslot = k;
          slots = record { slot = k; at = region daddr size; backing = saddr } ∷ m.slots;
        },
      )
      else (negsuc 0, record m { currmemslot = k })

  -- No caller looks at the result.
  abbrev pub then_map : ℕ → Backing → ℕ → Memory → Memory
  then_map daddr saddr size m = (sys_map daddr saddr size m).1

  unfoldable pub map_each : ℕ → List MemoryRegion → Memory → Memory
  map_each n [] m = m
  map_each n (r ∷ rs) m = map_each (n + 1) rs (then_map r.guest_phys_addr (ram n) r.memory_size m)

  -- The mappings are numbered in the order of map_ram's calls.
  unfoldable pub map_guest_ram : ℕ → Memory → Memory
  map_guest_ram megs = map_each 0 (map_ram megs)

-- The length of a file in whole pages, which is an int as well: a positive one is rounded up, where
-- the sum may not fit, and a negative one towards 0.
unfoldable pub page_length : ℤ → Outcome ℤ
page_length (pos n) =
    if n % 4096 == 0
    then ok (pos n)
    else if ltb (n / 4096 * 4096 + 0x1000) (2 ^ 31)
    then ok (pos (n / 4096 * 4096 + 0x1000))
    else fault
page_length (negsuc n) =
    if ltb (n + 1) 4096 then ok (pos 0) else ok (negsuc ((n + 1) / 4096 * 4096 - 1))

-- The file in a buffer of 128 KB, whose rest keeps what it held.
unfoldable pub load_image : Cells → File → Outcome Backing
load_image buffer f = page_length (file_length f) >>= λ mlen.
    assert (at_most mlen 0x20000)
    >> (read_image buffer (file_length f) f >>= λ block. ok (image block))

module _ (host : Host) where
  unfoldable pub load_bios_vga : Memory → Outcome (ℤ × Memory)
  load_bios_vga m = elim host.vgabios [
    | none ↦ ok (negsuc 0, m)
    | some f ↦ load_image host.buffer f >>= λ tmp. ok (pos 0, then_map host 0xC0000 tmp 0x20000 m)
  ]

  -- The result of load_bios_vga is ignored.
  unfoldable pub load_bios : Memory → Outcome (ℤ × Memory)
  load_bios m = elim host.seabios [
    | none ↦ ok (negsuc 0, m)
    | some f ↦ load_image host.buffer f >>= λ tmp.
        load_bios_vga (then_map host 0xFFFE0000 tmp 0x20000 (then_map host 0xE0000 tmp 0x20000 m))
        >>= λ q. ok (pos 0, q.1)
  ]

  -- KVM_CREATE_VCPU is given the number 0 for every CPU. The numbers of those that there are, the
  -- newest first.
  unfoldable pub create_vcpus : ℕ → List ℕ → Outcome (Option (List ℕ))
  create_vcpus zero cpus = ok (some cpus)
  create_vcpus (suc n) cpus =
      let rest = create_vcpus n (0 ∷ cpus) in
      if not (host.creates_vcpu cpus 0)
      then ok none
      else if not host.tells_mmap_size
      then ok none
      else if not host.maps_vcpu
      then ok none
      else if host.sets_cpuid
      then rest
      else abort

-- sys_t after sys_create.
pub record Sys : Type 0 where
  pub vcpus : List ℕ
  pub memory : Memory
  pub ramsize : ℕ

abbrev pub kvm_api_version : ℕ
kvm_api_version = 12

module _ (host : Host) where
  -- What follows the creation of the CPUs. Before it no region was mapped.
  unfoldable pub create_memory : ℕ → List ℕ → Outcome (Option Sys)
  create_memory megs cpus = load_bios host (record { currmemslot = 0; slots = [] }) >>= λ q.
      elim q.0 [
        | pos zero ↦ ok (
            some (record {
              vcpus = cpus;
              memory = map_guest_ram host megs q.1;
              ramsize = ram_end megs;
            }))
        | _ ↦ ok none
      ]

  -- `none` is NULL.
  pub sys_create : ℕ → ℕ → Outcome (Option Sys)
  sys_create megs num_vcpus =
      if not host.opens_kvm
      then ok none
      else if not (host.api_version == kvm_api_version)
      then ok none
      else if not host.creates_vm
      then ok none
      else if not host.sets_tss_addr
      then ok none
      else if not host.creates_irqchip
      then ok none
      else if not host.creates_pit
      then ok none
      else create_vcpus host num_vcpus [] >>= λ made. elim made [
        | none ↦ ok none
        | some cpus ↦ create_memory megs cpus
      ]

  -- sys_create of main, with the assertion on its result.
  abbrev pub created : ℕ → ℕ → Outcome Sys
  created megs num_vcpus =
      sys_create megs num_vcpus >>= λ made. elim made [ none ↦ abort | some sys ↦ ok sys ]
