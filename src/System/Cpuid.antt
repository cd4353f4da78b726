-- ===== src/System/Cpuid.antt =====
-- system.c: fixupCPUID, the answers of CPUID that the guest is given.
use kvmulate.Prelude.{
  ℕ, zero, suc, ◌+◌, ◌/◌, ◌%◌, ◌≡◌, ◌≢◌, refl, Bool, true, List, [], ◌∷◌, ◌++◌, Option, none, some,
  Outcome, ok, abort, Returns, ltb, ◌==◌, if◌then◌else◌, arith,
}

-- struct kvm_cpuid_entry2, less its index, flags and padding, which stay 0.
pub record CpuidEntry : Type 0 where
  pub function : ℕ
  pub eax : ℕ
  pub ebx : ℕ
  pub ecx : ℕ
  pub edx : ℕ

abbrev pub unset_entry : CpuidEntry
unset_entry = record { function = 0; eax = 0; ebx = 0; ecx = 0; edx = 0 }

-- cpuid.nent and cpuid_data of a vcpu_t.
pub record Cpuid : Type 0 where
  pub nent : ℕ
  pub entries : ℕ → CpuidEntry

-- Sets cpuid_data[k] and counts it.
abbrev pub put_entry : ℕ → CpuidEntry → Cpuid → Cpuid
put_entry k e c = record { nent = c.nent + 1; entries = λ i. if i == k then e else c.entries i }

abbrev pub clear : Cpuid → Cpuid
clear c = record { nent = 0; entries = λ i. if ltb i 100 then unset_entry else c.entries i }

abbrev pub leaf : ℕ → ℕ → ℕ → ℕ → ℕ → CpuidEntry
leaf function eax ebx ecx edx = record {
  function = function;
  eax = eax;
  ebx = ebx;
  ecx = ecx;
  edx = edx;
}

-- The argument tells whether KVM_SET_CPUID2 succeeds.
pub fixup_cpuid : Bool → Cpuid → Outcome Cpuid
fixup_cpuid accepted c =
    let c0 = clear c in
    let c1 = put_entry 0 (leaf 0x0 0x4 0x756e6547 0x6c65746e 0x49656e69) c0 in
    let c2 = put_entry 1 (leaf 0x80000000 0x8000000a 0x756e6547 0x6c65746e 0x49656e69) c1 in
    let c3 = put_entry 2 (leaf 0x80000002 0x554d4551 0x72695620 0x6c617574 0x55504320) c2 in
    let c4 = put_entry 3 (leaf 0x80000003 0x72657620 0x6e6f6973 0x342e3120 0x302e) c3 in
    let c5 = put_entry 4 (leaf 0x80000001 0x623 0x0 0x1 0x2191abfd) c4 in
    let c6 = put_entry 5 (leaf 0x1 0x623 0x800 0x80802001 0x78bfbfd) c5 in
    if accepted then ok c6 else abort

-- The first of the entries that is for the function.
abbrev pub find_entry : ℕ → ℕ → (ℕ → CpuidEntry) → ℕ → Option CpuidEntry
find_entry function zero entries i = none
find_entry function (suc n) entries i =
    if (entries i).function == function
    then some (entries i)
    else find_entry function n entries (suc i)

abbrev pub answer : ℕ → Cpuid → Option CpuidEntry
answer function c = find_entry function c.nent c.entries 0

-- The characters of a register, the lowest byte first.
abbrev pub chars : ℕ → List ℕ
chars r = r % 256 ∷ r / 256 % 256 ∷ r / 65536 % 256 ∷ r / 16777216 % 256 ∷ []

abbrev pub vendor_of : Option CpuidEntry → List ℕ
vendor_of none = []
vendor_of (some e) = chars e.ebx ++ (chars e.edx ++ chars e.ecx)

abbrev pub brand_of : Option CpuidEntry → List ℕ
brand_of none = []
brand_of (some e) = chars e.eax ++ (chars e.ebx ++ (chars e.ecx ++ chars e.edx))

-- "GenuineIntel", and "QEMU Virtual CPU version 1.4.0" with two zeros behind it.
abbrev pub vendor_text : List ℕ
vendor_text = b'G' ∷ b'e' ∷ b'n' ∷ b'u' ∷ b'i' ∷ b'n' ∷ b'e' ∷ b'I' ∷ b'n' ∷ b't' ∷ b'e' ∷ b'l' ∷ []

abbrev pub brand_text : List ℕ
brand_text =
    b'Q' ∷ b'E' ∷ b'M' ∷ b'U' ∷ b' ' ∷ b'V' ∷ b'i' ∷ b'r' ∷ b't' ∷ b'u' ∷ b'a' ∷ b'l' ∷ b' ' ∷ b'C'
    ∷ b'P' ∷ b'U' ∷ b' ' ∷ b'v' ∷ b'e' ∷ b'r' ∷ b's' ∷ b'i' ∷ b'o' ∷ b'n' ∷ b' ' ∷ b'1' ∷ b'.'
    ∷ b'4' ∷ b'.' ∷ b'0' ∷ 0 ∷ 0 ∷ []

abbrev pub IsOther : ℕ → Type 0
IsOther function =
    (function ≢ 0x0)
    × (function ≢ 0x1)
    × (function ≢ 0x80000000)
    × (function ≢ 0x80000001)
    × (function ≢ 0x80000002)
    × (function ≢ 0x80000003)

-- Whatever the entries were before: the guest finds the vendor "GenuineIntel" under the functions 0
-- and 0x80000000, the text "QEMU Virtual CPU version 1.4.0" in 0x80000002 and 0x80000003, and no
-- entry for a function other than these four, 1 and 0x80000001.
pub fixup_cpuid_lem :
    (c : Cpuid) (function : ℕ)
    → IsOther function
    → Returns
        (λ d.
          (vendor_of (answer 0x0 d) ≡ vendor_text)
          × (vendor_of (answer 0x80000000 d) ≡ vendor_text)
          × (brand_of (answer 0x80000002 d) ++ brand_of (answer 0x80000003 d) ≡ brand_text)
          × (answer function d ≡ none))
        (fixup_cpuid true c)
unfolding fixup_cpuid
fixup_cpuid_lem c function other = (refl, refl, refl, ground arith)
