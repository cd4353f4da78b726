-- ===== src/System/Run/Sequence.antt =====
-- system.c: a sequence of exits as one sequence of accesses.
use kvmulate.Prelude.{
  ◌≡◌, refl, sym, ap, ◌∙◌, fun_ext, Bool, List, [], ◌∷◌, ◌++◌, Outcome, ok, abort, fault, ◌>>=◌,
  >>=_assoc, Cells, run,
}
use kvmulate.Io.{IoHandler}
use kvmulate.Mmio.{MmioDevice}
use kvmulate.Exits.{handle_io}
use kvmulate.System.Run.{
  VmExit, failed, debug, other, io, mmio, Loop, running, done, before, sys_run_vcpu, accesses,
  AllPorts, all_accesses, end_state,
}
use kvmulate.System.Run.Accesses.{act, run-append, handle_io-run}

module _ {S : Type 0} (hs : List (IoHandler S)) (ds : S → List (MmioDevice S)) where
  end_state-before :
      (page : Cells) (m : Outcome (Loop S))
      → end_state (m >>= λ l. ok (before hs ds page l)) ≡ end_state m
  end_state-before page (ok (running pages s)) = refl
  end_state-before page (ok (done pages s)) = refl
  end_state-before page abort = refl
  end_state-before page fault = refl

  after_exit :
      (m : Outcome (Cells × S)) (es : List VmExit)
      → end_state (m >>= λ q. sys_run_vcpu hs ds es q.1 >>= λ l. ok (before hs ds q.0 l))
        ≡ (m >>= (λ q. ok q.1) >>= λ t. end_state (sys_run_vcpu hs ds es t))
  after_exit (ok q) es = end_state-before q.0 (sys_run_vcpu hs ds es q.1)
  after_exit abort es = refl
  after_exit fault es = refl

  -- Exits for ports, of the widths 1, 2 and 4, and then any others: the loop makes the accesses of
  -- the exits, element by element, in order, and goes on with the others from the state that those
  -- leave, to the same end and the same last state.
  pub sys_run_vcpu-append :
      (es more : List VmExit) (s : S)
      → AllPorts es
      → end_state (sys_run_vcpu hs ds (es ++ more) s)
        ≡ (run (act hs) (all_accesses es) s >>= λ t. end_state (sys_run_vcpu hs ds more t))
  unfolding sys_run_vcpu run
  sys_run_vcpu-append [] more s h = refl
  sys_run_vcpu-append (io is_out port size count offset page ∷ es) more s h =
      after_exit (handle_io hs is_out port size count offset page s) (es ++ more)
      ∙ ap (λ (m : Outcome S). m >>= λ t. end_state (sys_run_vcpu hs ds (es ++ more) t))
          (handle_io-run hs is_out port size count offset page s h.0)
      ∙ ap
          (λ (k : S → Outcome (Bool × S)).
            run (act hs) (accesses (io is_out port size count offset page)) s >>= k)
          (fun_ext (λ t. sys_run_vcpu-append es more t h.1))
      ∙ sym (
          >>=_assoc (run (act hs) (accesses (io is_out port size count offset page)) s)
            (run (act hs) (all_accesses es)) (λ t. end_state (sys_run_vcpu hs ds more t)))
      ∙ ap (λ (m : Outcome S). m >>= λ t. end_state (sys_run_vcpu hs ds more t))
          (sym
            (run-append hs (accesses (io is_out port size count offset page)) (all_accesses es) s))
  sys_run_vcpu-append (failed ∷ es) more s h = absurd h
  sys_run_vcpu-append (debug ∷ es) more s h = absurd h
  sys_run_vcpu-append (other ∷ es) more s h = absurd h
  sys_run_vcpu-append (mmio is_write phys_addr len bytes ∷ es) more s h = absurd h
