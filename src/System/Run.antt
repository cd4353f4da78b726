-- ===== src/System/Run.antt =====
-- system.c: the loop of KVM_RUN in sys_run_vcpu, for the exits that the guest causes. The bases of the
-- memory devices may change as it runs, so that their list depends on the state.
pub mod Accesses
pub mod Sequence
use kvmulate.Prelude.{
  ℕ, zero, suc, ◌+◌, ◌≡◌, ◌⊎◌, inl, inr, refl, sym, ap, ◌∙◌, fun_ext, Bool, true, false, List, [],
  ◌∷◌, ◌++◌, map, Option, none, some, Outcome, ok, abort, fault, ◌>>=◌, >>=_assoc, ◌==◌,
  if◌then◌else◌, Cells, run, arith,
}
use kvmulate.Io.{IoHandler, io_outb, io_outw, io_outl, io_inb, io_inw, io_inl}
use kvmulate.Io.Parts.{Access, outb, outw, outl, inb, inw, inl, perform, performs, written, read}
use kvmulate.Mmio.{MmioDevice}
use kvmulate.Exits.{handle_io, handle_mmio}
use kvmulate.Exits.Streams.{
  write_port, read_port, read_ports, get_elements, placed, consed, handle_io_lem,
}

-- What KVM_RUN returned with. Of the kvm_run page the data of the exit are kept.
pub data VmExit : Type 0 where
  failed debug other : VmExit
  io : Bool → ℕ → ℕ → ℕ → ℕ → Cells → VmExit
  mmio : Bool → ℕ → ℕ → Cells → VmExit

-- Whether the loop has left by bDone, and the pages that the exits handed back to the guest.
pub data Loop (S : Type 0) : Type 0 where
  running done : List Cells → S → Loop S

module _ {S : Type 0} (hs : List (IoHandler S)) (ds : S → List (MmioDevice S)) where
  -- The pages of `first` come before those of the rest.
  abbrev pub before : Cells → Loop S → Loop S
  before page (running pages s) = running (page ∷ pages) s
  before page (done pages s) = done (page ∷ pages) s

  unfoldable pub sys_run_vcpu : List VmExit → S → Outcome (Loop S)
  sys_run_vcpu [] s = ok (running [] s)
  sys_run_vcpu (failed ∷ es) s = ok (done [] s)
  sys_run_vcpu (debug ∷ es) s = abort
  sys_run_vcpu (other ∷ es) s = abort
  sys_run_vcpu (io is_out port size count data_offset page ∷ es) s =
      handle_io hs is_out port size count data_offset page s >>= λ q.
      sys_run_vcpu es q.1 >>= λ l. ok (before q.0 l)
  sys_run_vcpu (mmio is_write phys_addr len bytes ∷ es) s =
      handle_mmio (ds s) is_write phys_addr len bytes s >>= λ q.
      sys_run_vcpu es q.1 >>= λ l. ok (before q.0 l)

-- The accesses of an exit, of a width that KVM reports.
abbrev pub write_access : ℕ → ℕ → ℕ → Access
write_access size port v =
    if size == 1 then outb port v else if size == 2 then outw port v else outl port v

abbrev pub read_access : ℕ → ℕ → Access
read_access size port = if size == 1 then inb port else if size == 2 then inw port else inl port

abbrev pub copies {ℓ} : {A : Type ℓ} → ℕ → A → List A
copies zero a = []
copies (suc n) a = a ∷ copies n a

abbrev pub accesses : VmExit → List Access
accesses (io true port size count data_offset page) =
    map (write_access size port) (get_elements size page data_offset count)
accesses (io false port size count data_offset page) = copies count (read_access size port)
accesses _ = []

abbrev pub IsWidth : ℕ → Type 0
IsWidth size = (size ≡ 1) ⊎ (size ≡ 2) ⊎ (size ≡ 4)

abbrev pub AllPorts : List VmExit → Type 0
AllPorts [] = Unit {0}
AllPorts (io is_out port size count data_offset page ∷ es) = IsWidth size × AllPorts es
AllPorts (e ∷ es) = ⊥

abbrev pub all_accesses : List VmExit → List Access
all_accesses [] = []
all_accesses (e ∷ es) = accesses e ++ all_accesses es

-- Whether the loop has ended, and the state.
abbrev pub end_state : {S : Type 0} → Outcome (Loop S) → Outcome (Bool × S)
end_state m = m >>= λ l. elim l [ running pages s ↦ ok (false, s) | done pages s ↦ ok (true, s) ]
