-- ===== src/System/Creation.antt =====
-- system.c: when sys_create gives a machine.
use kvmulate.Prelude.{
  ℕ, suc, ◌≡◌, Bool, false, ◌&&◌, ◌⊎◌, inl, inr, List, [], ◌∷◌, none, some, ok, abort, ◌>>=◌, ◌==◌,
  if◌then◌else◌, arith, Bool-cases,
}
use kvmulate.System.{Host, create_vcpus, create_memory, sys_create, kvm_api_version}

-- The answers that are asked for before the first CPU.
abbrev pub vm_ready : Host → Bool
vm_ready host =
    host.opens_kvm
    && host.api_version == kvm_api_version
    && host.creates_vm
    && host.sets_tss_addr
    && host.creates_irqchip
    && host.creates_pit

module _ (host : Host) where
  sys_create_vcpus :
      (megs n : ℕ)
      → sys_create host megs n ≡ (
          if vm_ready host
          then (create_vcpus host n [] >>= λ made. elim made [
            | none ↦ ok none
            | some cpus ↦ create_memory host megs cpus
          ])
          else ok none)
  unfolding sys_create
  sys_create_vcpus megs n = ground arith

  -- A kernel does not create a second CPU with a number that is in use.
  abbrev pub OneForEach : Type 0
  OneForEach = (cpus : List ℕ) → host.creates_vcpu (0 ∷ cpus) 0 ≡ false

  second_fails :
      (one : OneForEach) (n : ℕ)
      → (create_vcpus host (suc (suc n)) [] ≡ ok none)
        ⊎ (create_vcpus host (suc (suc n)) [] ≡ abort)
  unfolding create_vcpus
  second_fails one n = ground (arith, one [])

  -- One CPU: sys_create gives NULL if any of the calls before the CPU's, the creation of the CPU or
  -- the mapping of its state fails, is stopped by an assertion if only the CPUID is refused, and goes
  -- on to the memory otherwise.
  pub one_cpu :
      (megs : ℕ)
      → sys_create host megs 1 ≡ (
          if vm_ready host && host.creates_vcpu [] 0 && host.tells_mmap_size && host.maps_vcpu
          then if host.sets_cpuid then create_memory host megs (0 ∷ []) else abort
          else ok none)
  unfolding create_vcpus
  one_cpu megs = rw (sys_create_vcpus megs 1) (ground arith)

  -- With a kernel that gives each number to one CPU only, sys_create gives no machine of two CPUs or
  -- more, since it creates each with the number 0: the result is NULL, or an assertion stops it.
  pub more_cpus :
      (megs n : ℕ)
      → OneForEach
      → (sys_create host megs (suc (suc n)) ≡ ok none)
        ⊎ (sys_create host megs (suc (suc n)) ≡ abort)
  more_cpus megs n one =
      rw (sys_create_vcpus megs (suc (suc n))) (elim (Bool-cases (vm_ready host)) [
        | inl ready ↦ elim (second_fails one n) [
          | inl e ↦ inl (rw (ready, e))
          | inr e ↦ inr (rw (ready, e))
        ]
        | inr not_ready ↦ inl (rw not_ready)
      ])
