-- ===== src/Tests/Start.antt =====
-- system.c: the start of the machine on a kernel that has what the program needs, and exits.
use kvmulate.Main.{
  Resources, main, can_start, images_accepted, is_there, with_disk, image_block, main_lem,
}
use kvmulate.Prelude.{
  if◌then◌else◌, ℕ, ◌+◌, ◌%◌, ◌≡◌, ◌⊎◌, inl, refl, Bool, true, false, List, [], ◌∷◌, ◌++◌, none,
  some, ok, abort, fault, ◌>>=◌, Returns, zeros, arith, run,
}
use kvmulate.Io.{IoHandler}
use kvmulate.Files.{File}
use kvmulate.System.{Host, Sys, sys_create, create_memory}
use kvmulate.System.Images.{accepted}
use kvmulate.System.Regions.{is_free, guest_at}
use kvmulate.System.Regions.Guest.{physical, block_of, image_of, IsSome, guest_memory}
use kvmulate.System.Creation.{more_cpus}
use kvmulate.System.Cpuid.{
  Cpuid, unset_entry, fixup_cpuid, answer, vendor_of, brand_of, vendor_text, brand_text,
  fixup_cpuid_lem,
}
use kvmulate.System.Run.{VmExit, failed, io, all_accesses, end_state, sys_run_vcpu}
use kvmulate.System.Run.Accesses.{act}
use kvmulate.System.Run.Sequence.{sys_run_vcpu-append}

abbrev bios : File
bios = record { size = 0x20000; byte = λ i. i % 251; position = 0 }

abbrev one_only : List ℕ → ℕ → Bool
one_only [] n = true
one_only (c ∷ cs) n = false

abbrev host : Host
host = record {
  opens_kvm = true;
  api_version = 12;
  creates_vm = true;
  sets_tss_addr = true;
  creates_irqchip = true;
  creates_pit = true;
  creates_vcpu = one_only;
  tells_mmap_size = true;
  maps_vcpu = true;
  sets_cpuid = true;
  accepts = is_free;
  seabios = some bios;
  vgabios = some bios;
  buffer = zeros;
}

-- The reset vector, on a machine of 8 GB with a VGA BIOS.
guest_memory_example :
    Returns
      (IsSome (λ (sys : Sys).
        guest_at sys.memory.slots 0xFFFFFFF0
        ≡ physical (block_of (some (image_of host bios))) (image_of host bios) 8192 0xFFFFFFF0))
      (create_memory host 8192 (0 ∷ []))
guest_memory_example =
    guest_memory host bios (0 ∷ []) 8192 0xFFFFFFF0 (λ ss r. refl) refl (omega arith) (omega arith)
      (omega arith) (omega arith) (omega arith)

more_cpus_example : (sys_create host 64 2 ≡ ok none) ⊎ (sys_create host 64 2 ≡ abort)
more_cpus_example = more_cpus host 64 0 (λ cpus. refl)

abbrev used : Cpuid
used = record { nent = 6; entries = λ i. unset_entry }

fixup_cpuid_lem_example :
    Returns
      (λ d.
        (vendor_of (answer 0x0 d) ≡ vendor_text)
        × (vendor_of (answer 0x80000000 d) ≡ vendor_text)
        × (brand_of (answer 0x80000002 d) ++ brand_of (answer 0x80000003 d) ≡ brand_text)
        × (answer 0x80000004 d ≡ none))
      (fixup_cpuid true used)
fixup_cpuid_lem_example =
    fixup_cpuid_lem used 0x80000004
      (omega arith, omega arith, omega arith, omega arith, omega arith, omega arith)

-- A device whose state is the last byte written.
abbrev latch : IoHandler ℕ
latch = record {
  base = 0x80;
  mask = 0xFFFF;
  inb = some (λ s port. ok (s, s));
  inw = none;
  inl = none;
  outb = some (λ s port val. ok val);
  outw = none;
  outl = none;
}

abbrev exits : List VmExit
exits = io true 0x80 1 3 0 (λ i. i + 7) ∷ io false 0x80 1 2 0 zeros ∷ []

sys_run_vcpu-append_example :
    end_state (sys_run_vcpu (latch ∷ []) (λ n. []) (exits ++ failed ∷ []) 0) ≡ (
      run (act (latch ∷ [])) (all_accesses exits) 0 >>= λ t.
      end_state (sys_run_vcpu (latch ∷ []) (λ n. []) (failed ∷ []) t))
sys_run_vcpu-append_example =
    sys_run_vcpu-append (latch ∷ []) (λ n. []) exits (failed ∷ []) 0 (inl refl, (inl refl, tt))

-- The disk and the time at the start.
abbrev resources : Resources
resources = record {
  now = record { tm_sec = 0; tm_min = 0; tm_hour = 12; tm_mday = 1; tm_mon = 0; tm_year = 114 };
  floppy = none;
  disk = some bios;
  mem = record { low = zeros; high = zeros };
  buffer = zeros;
  planes = λ p. zeros;
}

main_lem_example : main host resources (failed ∷ []) ≡ (
    if can_start host
    then images_accepted host.seabios host.vgabios (
        if is_there resources.disk
        then with_disk resources (failed ∷ []) (image_block host.vgabios)
        else abort)
    else abort)
main_lem_example = main_lem host resources (failed ∷ [])

starts : can_start host ≡ true
starts = refl

-- The lengths at which the outcome changes.
lengths :
    (accepted 0x20000 ≡ ok tt)
    × (accepted 0x20001 ≡ abort)
    × (accepted 0x7FFFF000 ≡ abort)
    × (accepted 0x7FFFF001 ≡ fault)
    × (accepted 0x80000000 ≡ ok tt)
lengths = (refl, refl, refl, refl, refl)
