-- ===== src/System/Run/Accesses.antt =====
-- system.c: one exit for a port as its accesses.
use kvmulate.Prelude.{
  ℕ, zero, suc, ◌≡◌, inl, inr, refl, sym, ap, ◌∙◌, fun_ext, Bool, true, false, List, [], ◌∷◌, ◌++◌,
  map, Outcome, ok, abort, fault, ◌>>=◌, >>=_assoc, Cells, run,
}
use kvmulate.Io.{IoHandler, io_outb, io_outw, io_outl, io_inb, io_inw, io_inl}
use kvmulate.Io.Parts.{Access, inl, perform, written, read}
use kvmulate.Exits.{handle_io}
use kvmulate.Exits.Streams.{
  write_port, read_port, read_ports, get_elements, placed, consed, handle_io_lem,
}
use kvmulate.System.Run.{io, accesses, IsWidth, write_access, read_access, copies}

module _ {S : Type 0} (hs : List (IoHandler S)) where
  abbrev pub act : Access → S → Outcome S
  act a s = perform hs a s >>= λ q. ok q.1

  act_out : (m : Outcome S) → (written m >>= λ q. ok q.1) ≡ m
  act_out (ok s) = refl
  act_out abort = refl
  act_out fault = refl

  act_in : (m : Outcome (ℕ × S)) → (read m >>= λ q. ok q.1) ≡ (m >>= λ q. ok q.1)
  act_in (ok q) = refl
  act_in abort = refl
  act_in fault = refl

  act-write_access :
      (port size v : ℕ) (s : S)
      → IsWidth size
      → act (write_access size port v) s ≡ write_port hs port size v s
  unfolding perform
  act-write_access port size v s (inl e) = rw e (act_out (io_outb hs port v s))
  act-write_access port size v s (inr (inl e)) = rw e (act_out (io_outw hs port v s))
  act-write_access port size v s (inr (inr e)) = rw e (act_out (io_outl hs port v s))

  act-read_access :
      (port size : ℕ) (s : S)
      → IsWidth size
      → act (read_access size port) s ≡ (read_port hs port size s >>= λ q. ok q.1)
  unfolding perform
  act-read_access port size s (inl e) = rw e (act_in (io_inb hs port s))
  act-read_access port size s (inr (inl e)) = rw e (act_in (io_inw hs port s))
  act-read_access port size s (inr (inr e)) = rw e (act_in (io_inl hs port s))

  run-map :
      (port size : ℕ) (vs : List ℕ) (s : S)
      → IsWidth size
      → run act (map (write_access size port) vs) s ≡ run (write_port hs port size) vs s
  unfolding run
  run-map port size [] s w = refl
  run-map port size (v ∷ vs) s w =
      ap (λ (m : Outcome S). m >>= run act (map (write_access size port) vs))
        (act-write_access port size v s w)
      ∙ ap (λ (k : S → Outcome S). write_port hs port size v s >>= k)
          (fun_ext (λ t. run-map port size vs t w))

  run-copies :
      (port size n : ℕ) (s : S)
      → IsWidth size
      → run act (copies n (read_access size port)) s ≡ (read_ports hs port size n s >>= λ q. ok q.1)
  unfolding run read_ports
  run-copies port size zero s w = refl
  run-copies port size (suc n) s w =
      rw (act-read_access port size s w)
        (go (read_port hs port size s) (λ t. run-copies port size n t w))
    where
      inner :
          (v : ℕ) (m : Outcome (List ℕ × S))
          → (m >>= λ q. ok q.1) ≡ (m >>= consed hs port size v >>= λ q. ok q.1)
      inner v (ok q) = refl
      inner v abort = refl
      inner v fault = refl

      go :
          (m : Outcome (ℕ × S))
          → ((t : S)
              → run act (copies n (read_access size port)) t
                ≡ (read_ports hs port size n t >>= λ q. ok q.1))
          → (m >>= (λ q. ok q.1) >>= run act (copies n (read_access size port))) ≡ (
              m >>= (λ q. read_ports hs port size n q.1 >>= consed hs port size q.0) >>= λ q.
              ok q.1)
      go (ok q) rest = rest q.1 ∙ inner q.0 (read_ports hs port size n q.1)
      go abort rest = refl
      go fault rest = refl

  pub run-append :
      (os ps : List Access) (s : S) → run act (os ++ ps) s ≡ (run act os s >>= run act ps)
  unfolding run
  run-append [] ps s = refl
  run-append (o ∷ os) ps s =
      ap (λ (k : S → Outcome S). act o s >>= k) (fun_ext (λ t. run-append os ps t))
      ∙ sym (>>=_assoc (act o s) (run act os) (run act ps))

  abbrev paged : Cells → S → Outcome (Cells × S)
  paged page t = ok (page, t)

  -- The state after an exit is that after its accesses.
  pub handle_io-run :
      (is_out : Bool) (port size count offset : ℕ) (page : Cells) (s : S)
      → IsWidth size
      → (handle_io hs is_out port size count offset page s >>= λ q. ok q.1)
        ≡ run act (accesses (io is_out port size count offset page)) s
  handle_io-run true port size count offset page s w =
      ap (λ (m : Outcome (Cells × S)). m >>= λ q. ok q.1)
        (handle_io_lem hs port size count offset page s).0
      ∙ drop (run (write_port hs port size) (get_elements size page offset count) s)
      ∙ sym (run-map port size (get_elements size page offset count) s w)
    where
      drop : (m : Outcome S) → (m >>= paged page >>= λ q. ok q.1) ≡ m
      drop (ok t) = refl
      drop abort = refl
      drop fault = refl
  handle_io-run false port size count offset page s w =
      ap (λ (m : Outcome (Cells × S)). m >>= λ q. ok q.1)
        (handle_io_lem hs port size count offset page s).1
      ∙ drop (read_ports hs port size count s)
      ∙ sym (run-copies port size count s w)
    where
      drop :
          (m : Outcome (List ℕ × S))
          → (m >>= placed hs port size page offset >>= λ q. ok q.1) ≡ (m >>= λ q. ok q.1)
      drop (ok q) = refl
      drop abort = refl
      drop fault = refl
