-- ===== src/Main.antt =====
-- main.c: the program, from its start to the last of the exits that it is given.
use kvmulate.Prelude.{
  ℕ, ◌*◌, [], ◌∷◌, ◌≡◌, refl, Bool, true, false, ◌&&◌, List, Option, none, some, Outcome, ok, abort,
  fault, ◌>>=◌, ◌>>◌, >>=_assoc, ap, ◌∙◌, fun_ext, if◌then◌else◌, Cells, zeros, sym, ◌⊎◌, inl, inr,
}
use mathlib.Core.Option
use kvmulate.Files.{File, int_size, loaded}
use kvmulate.LowMem.{LowMem}
use kvmulate.Cmos.{Tm}
use kvmulate.Ata.{AtaController}
use kvmulate.Ata.Ports.{x86_ata_init}
use kvmulate.Vga.Rom.{load_bios}
use kvmulate.System.{Host, Sys, created, sys_create, create_memory, load_bios_vga}
use kvmulate.System
use kvmulate.System.Images.{accepted, load_image-accepted, load_bios-accepted}
use kvmulate.System.Creation.{vm_ready, one_cpu}
use kvmulate.System.Run.{VmExit, Loop}
use kvmulate.Machine.{Machine}
use kvmulate.Machine.Start.{start_devices, start_machine}
use kvmulate.Machine.Memory.{run_guest}

-- What the devices find at their start: the time, the files floppy.img and hdd.img if they can be
-- opened, and what malloc gives.
pub record Resources : Type 0 where
  pub now : Tm
  pub floppy : Option File
  pub disk : Option File
  pub mem : LowMem
  pub buffer : Cells
  pub planes : ℕ → Cells

abbrev pub megs : ℕ
megs = 1024 * 8

-- The devices are registered at the end of sys_create; vgabios.rom is read by both.
unfoldable pub main : Host → Resources → List VmExit → Outcome (Loop Machine)
main host res es = created host megs 1 >>= λ sys.
    start_devices res.now megs host.vgabios res.floppy res.disk res.mem res.buffer res.planes
    >>= run_guest es

-- How loading an image ends, if the file can be opened.
abbrev pub image_accepted : Option File → Outcome (Unit {0})
image_accepted none = ok tt
image_accepted (some f) = accepted (int_size f)

abbrev pub is_there : Option File → Bool
is_there none = false
is_there (some f) = true

-- What the program needs of the host.
abbrev pub makes_vcpu : Host → Bool
makes_vcpu host = vm_ready host && host.creates_vcpu [] 0 && host.tells_mmap_size && host.maps_vcpu

abbrev pub can_start : Host → Bool
can_start host = makes_vcpu host && host.sets_cpuid && is_there host.seabios

abbrev pub asserted : Outcome (Option Sys) → Outcome Sys
asserted m = m >>= λ made. elim made [ none ↦ abort | some sys ↦ ok sys ]

abbrev pub image_block : Option File → Option Cells
image_block = Option.map (loaded zeros)

-- Both images in turn, and what follows.
abbrev pub images_accepted {ℓ} : {B : Type ℓ} → Option File → Option File → Outcome B → Outcome B
images_accepted f v m = image_accepted f >> (image_accepted v >> m)

ends : (m : Outcome (Unit {0})) → (m ≡ ok tt) ⊎ ((m ≡ abort) ⊎ (m ≡ fault))
ends (ok t) = inl refl
ends abort = inr (inl refl)
ends fault = inr (inr refl)

module _ {B : Type 0} (host : Host) (n : ℕ) (cpus : List ℕ) (k : Option Cells → Outcome B) where
  abbrev continued : Option File → Outcome (Option Sys) → Outcome B
  continued v m = asserted m >>= λ sys. load_bios v >>= k

  read_again :
      (v : File)
      → accepted (int_size v) ≡ ok tt
      → (load_bios (some v) >>= k) ≡ k (some (loaded zeros v))
  read_again v h =
      ap (λ (m : Outcome (Unit {0})). m >> (load_bios (some v) >>= k)) (sym h)
      ∙ load_bios-accepted v k
      ∙ ap (λ (m : Outcome (Unit {0})). m >> k (some (loaded zeros v))) h

  -- The images, read by sys_create and by the VGA's initialisation.
  with_memory :
      (f v : Option File)
      → host.seabios ≡ f
      → host.vgabios ≡ v
      → continued v (create_memory host n cpus)
        ≡ (if is_there f then images_accepted f v (k (image_block v)) else abort)
  unfolding create_memory kvmulate.System.load_bios load_bios_vga kvmulate.Vga.Rom.load_bios
  with_memory none v e g = rw (e, kvmulate.System.load_bios) refl
  with_memory (some f) none e g = elim (ends (accepted (int_size f))) [
    | inl h ↦
        rw (e, kvmulate.System.load_bios, load_image-accepted host.buffer f, h, g, load_bios_vga)
          refl
    | inr (inl h) ↦ rw (e, kvmulate.System.load_bios, load_image-accepted host.buffer f, h) refl
    | inr (inr h) ↦ rw (e, kvmulate.System.load_bios, load_image-accepted host.buffer f, h) refl
  ]
  with_memory (some f) (some v) e g = elim (ends (accepted (int_size f))) [
    | inl h ↦
        rw
          (
            e,
            kvmulate.System.load_bios,
            load_image-accepted host.buffer f,
            h,
            g,
            load_bios_vga,
            load_image-accepted host.buffer v,
          )
          (elim (ends (accepted (int_size v))) [
            | inl t ↦ rw t (read_again v t)
            | inr (inl t) ↦ rw t refl
            | inr (inr t) ↦ rw t refl
          ])
    | inr (inl h) ↦ rw (e, kvmulate.System.load_bios, load_image-accepted host.buffer f, h) refl
    | inr (inr h) ↦ rw (e, kvmulate.System.load_bios, load_image-accepted host.buffer f, h) refl
  ]

module _ {B : Type 0} (host : Host) (n : ℕ) (k : Option Cells → Outcome B) where
  -- sys_create, with the assertion of main.
  created_lem : (asserted (sys_create host n 1) >>= λ sys. load_bios host.vgabios >>= k) ≡ (
      if can_start host
      then images_accepted host.seabios host.vgabios (k (image_block host.vgabios))
      else abort)
  created_lem = rw (one_cpu host n) (
      chosen (makes_vcpu host) host.sets_cpuid (is_there host.seabios)
        (create_memory host n (0 ∷ [])) (λ sys. load_bios host.vgabios >>= k)
        (images_accepted host.seabios host.vgabios (k (image_block host.vgabios)))
        (with_memory host n (0 ∷ []) k host.seabios host.vgabios refl refl))
    where
      chosen :
          (a b c : Bool) (x : Outcome (Option Sys)) (rest : Sys → Outcome B) (y : Outcome B)
          → (asserted x >>= rest) ≡ (if c then y else abort)
          → (asserted (if a then if b then x else abort else ok none) >>= rest)
            ≡ (if a && b && c then y else abort)
      chosen true true c x rest y e = e
      chosen true false c x rest y e = refl
      chosen false b c x rest y e = refl

module _ (res : Resources) (es : List VmExit) (rom : Option Cells) where
  abbrev pub start_state : AtaController → Machine
  start_state ata = start_machine res.now megs rom res.floppy res.mem res.buffer res.planes ata

  -- With the disk image.
  abbrev pub with_disk : Outcome (Loop Machine)
  with_disk = x86_ata_init res.disk >>= λ ata. run_guest es (start_state ata)

without_disk :
    (d : Option File) (f : AtaController → Outcome (Loop Machine))
    → (x86_ata_init d >>= f) ≡ (if is_there d then (x86_ata_init d >>= f) else abort)
unfolding x86_ata_init
without_disk none f = refl
without_disk (some d) f = refl

-- How the program starts. If the kernel answers as it has to and the BIOS image can be opened, the
-- BIOS image is loaded and then the VGA's if that can be opened; and if the disk image can be opened as
-- well, the guest runs on the devices as they are after their initialisations, with the VGA's image in
-- a block of zeros. Without the kernel's answers, the BIOS image or the disk image an assertion ends
-- the program. The length of an image counts modulo 4 GB: up to 128 KB it is loaded, up to 2 GB less
-- 4 KB an assertion ends the program, above that and below 2 GB the length in pages overflows an int,
-- and from 2 GB on nothing is loaded, without any error.
pub main_lem :
    (host : Host) (res : Resources) (es : List VmExit)
    → main host res es ≡ (
        if can_start host
        then images_accepted host.seabios host.vgabios
            (if is_there res.disk then with_disk res es (image_block host.vgabios) else abort)
        else abort)
unfolding main start_devices
main_lem host res es =
    let bios = load_bios host.vgabios in
    let ready =
      λ (rom : Option Cells). x86_ata_init res.disk >>= λ ata. ok (start_state res es rom ata) in
    ap (λ (m : Outcome (Loop Machine)). created host megs 1 >>= λ sys. m)
      (>>=_assoc bios ready (run_guest es)
        ∙ ap (λ (f : Option Cells → Outcome (Loop Machine)). bios >>= f)
            (fun_ext (λ rom.
              >>=_assoc (x86_ata_init res.disk) (λ ata. ok (start_state res es rom ata))
                (run_guest es))))
    ∙ created_lem host megs (with_disk res es)
    ∙ ap
        (λ (m : Outcome (Loop Machine)).
          if can_start host then images_accepted host.seabios host.vgabios m else abort)
        (without_disk res.disk
          (λ ata. run_guest es (start_state res es (image_block host.vgabios) ata)))
