-- ===== src/Io/Parts/Exits.antt =====
-- io.c and system.c: an exit for words of a port whose handler works on a part of the state.
use kvmulate.Prelude.{
  ℕ, zero, suc, ◌≡◌, refl, ap, sym, ◌∙◌, true, false, List, [], ◌∷◌, Option, none, some, Outcome,
  ok, abort, fault, ◌>>=◌, Cells, run, Returns,
}
use kvmulate.Prelude.Parts.{Part, Keeps}
use kvmulate.Io.{
  IoHandler, lookup_handler, offset, io_outb, io_outw, io_inb, io_inw, call_out, call_in,
}
use kvmulate.Io.Parts.{handler_part, in_part, out_part, alone}
use kvmulate.Exits.{handle_io}
use kvmulate.Exits.Streams.{write_port, read_ports, get_elements, consed, placed, handle_io_lem}

module _ {T S : Type 0} (part : Part T S) where
  -- The part of a state that is returned, alone or with a value.
  abbrev pub of_state : Outcome T → Outcome S
  of_state m = m >>= λ t. ok (part.get t)

  abbrev pub of_result : {A : Type 0} → Outcome (A × T) → Outcome (A × S)
  of_result m = m >>= λ q. ok (q.0, part.get q.1)

  pub of_state->>= :
      (m : Outcome T) (f : T → Outcome T) (g : S → Outcome S)
      → ((t : T) → of_state (f t) ≡ g (part.get t))
      → of_state (m >>= f) ≡ (of_state m >>= g)
  of_state->>= (ok t) f g h = h t
  of_state->>= abort f g h = refl
  of_state->>= fault f g h = refl

  pub of_result->>= :
      {A : Type 0} (m : Outcome T) (f : T → Outcome (A × T)) (g : S → Outcome (A × S))
      → ((t : T) → of_result (f t) ≡ g (part.get t))
      → of_result (m >>= f) ≡ (of_state m >>= g)
  of_result->>= (ok t) f g h = h t
  of_result->>= abort f g h = refl
  of_result->>= fault f g h = refl

  pub of_state-result :
      {A : Type 0} (m : Outcome (A × T)) (f : T → Outcome T) (g : S → Outcome S)
      → ((t : T) → of_state (f t) ≡ g (part.get t))
      → of_state (m >>= λ q. f q.1) ≡ (of_result m >>= λ q. g q.1)
  of_state-result (ok q) f g h = h q.1
  of_state-result abort f g h = refl
  of_state-result fault f g h = refl

  pub Returns-of_result :
      {A : Type 0} (P : A → Type 0) (m : Outcome (A × T))
      → Returns (λ (q : A × S). P q.0) (of_result m)
      → Returns (λ (q : A × T). P q.0) m
  Returns-of_result P (ok q) h = h
  Returns-of_result P abort h = h
  Returns-of_result P fault h = h

module _ {T S : Type 0} (part : Part T S) (keeps : Keeps part) (h : IoHandler S)
    (hs : List (IoHandler T)) (port : ℕ)
    (found : lookup_handler port hs ≡ some (handler_part part h)) where
  out_state :
      (f : Option (S → ℕ → ℕ → Outcome S)) (t : T) (off val : ℕ)
      → of_state part (call_out (out_part part f) t off val) ≡ call_out f (part.get t) off val
  out_state none t off val = refl
  out_state (some f) t off val = go (f (part.get t) off val)
    where
      go : (m : Outcome S) → of_state part (m >>= λ s. ok (part.set s t)) ≡ m
      go (ok s) = ap ok (keeps s t)
      go abort = refl
      go fault = refl

  in_result :
      (f : Option (S → ℕ → Outcome (ℕ × S))) (t : T) (off : ℕ)
      → of_result part (call_in (in_part part f) t off) ≡ call_in f (part.get t) off
  in_result none t off = refl
  in_result (some f) t off = go (f (part.get t) off)
    where
      go : (m : Outcome (ℕ × S)) → of_result part (m >>= λ q. ok (q.0, part.set q.1 t)) ≡ m
      go (ok q) = ap (λ (s : S). ok (q.0, s)) (keeps q.1 t)
      go abort = refl
      go fault = refl

  pub outb_state :
      (val : ℕ) (t : T)
      → of_state part (io_outb hs port val t) ≡ io_outb (h ∷ []) port val (part.get t)
  unfolding io_outb
  outb_state val t =
      rw (found, alone part keeps h hs port found, io_outb) (out_state h.outb t (offset port h) val)

  outw_state :
      (val : ℕ) (t : T)
      → of_state part (io_outw hs port val t) ≡ io_outw (h ∷ []) port val (part.get t)
  unfolding io_outw
  outw_state val t =
      rw (found, alone part keeps h hs port found, io_outw) (out_state h.outw t (offset port h) val)

  inw_result : (t : T) → of_result part (io_inw hs port t) ≡ io_inw (h ∷ []) port (part.get t)
  unfolding io_inw
  inw_result t =
      rw (found, alone part keeps h hs port found, io_inw) (in_result h.inw t (offset port h))

  pub inb_result : (t : T) → of_result part (io_inb hs port t) ≡ io_inb (h ∷ []) port (part.get t)
  unfolding io_inb
  inb_result t =
      rw (found, alone part keeps h hs port found, io_inb) (in_result h.inb t (offset port h))

  words_state :
      (vs : List ℕ) (t : T)
      → of_state part (run (write_port hs port 2) vs t)
        ≡ run (write_port (h ∷ []) port 2) vs (part.get t)
  unfolding run
  words_state [] t = refl
  words_state (v ∷ vs) t =
      of_state->>= part (io_outw hs port v t) (run (write_port hs port 2) vs)
        (run (write_port (h ∷ []) port 2) vs) (words_state vs)
      ∙ ap (λ (m : Outcome S). m >>= run (write_port (h ∷ []) port 2) vs) (outw_state v t)

  read_one :
      (n : ℕ) (m : Outcome (ℕ × T))
      → ((t : T)
          → of_result part (read_ports hs port 2 n t) ≡ read_ports (h ∷ []) port 2 n (part.get t))
      → of_result part (m >>= λ q. read_ports hs port 2 n q.1 >>= consed hs port 2 q.0) ≡ (
          of_result part m >>= λ q. read_ports (h ∷ []) port 2 n q.1 >>= consed (h ∷ []) port 2 q.0)
  read_one n (ok q) rest =
      add_one q.0 (read_ports hs port 2 n q.1)
      ∙ ap (λ (m : Outcome (List ℕ × S)). m >>= consed (h ∷ []) port 2 q.0) (rest q.1)
    where
      add_one :
          (v : ℕ) (m : Outcome (List ℕ × T))
          → of_result part (m >>= consed hs port 2 v)
            ≡ (of_result part m >>= consed (h ∷ []) port 2 v)
      add_one v (ok r) = refl
      add_one v abort = refl
      add_one v fault = refl
  read_one n abort rest = refl
  read_one n fault rest = refl

  words_result :
      (n : ℕ) (t : T)
      → of_result part (read_ports hs port 2 n t) ≡ read_ports (h ∷ []) port 2 n (part.get t)
  unfolding read_ports
  words_result zero t = refl
  words_result (suc n) t =
      read_one n (io_inw hs port t) (words_result n)
      ∙ ap
          (λ (m : Outcome (ℕ × S)).
            m >>= λ q. read_ports (h ∷ []) port 2 n q.1 >>= consed (h ∷ []) port 2 q.0)
          (inw_result t)

  -- rep outsw and rep insw at the port.
  pub outsw_result :
      (n from : ℕ) (page : Cells) (t : T)
      → of_result part (handle_io hs true port 2 n from page t)
        ≡ handle_io (h ∷ []) true port 2 n from page (part.get t)
  outsw_result n from page t =
      let words = get_elements 2 page from n in
      ap (of_result part) (handle_io_lem hs port 2 n from page t).0
      ∙ beside (run (write_port hs port 2) words t)
      ∙ ap (λ (m : Outcome S). m >>= λ s. ok (page, s)) (words_state words t)
      ∙ sym (handle_io_lem (h ∷ []) port 2 n from page (part.get t)).0
    where
      beside :
          (m : Outcome T)
          → of_result part (m >>= λ t. ok (page, t)) ≡ (of_state part m >>= λ s. ok (page, s))
      beside (ok t) = refl
      beside abort = refl
      beside fault = refl

  pub insw_result :
      (n to : ℕ) (page : Cells) (t : T)
      → of_result part (handle_io hs false port 2 n to page t)
        ≡ handle_io (h ∷ []) false port 2 n to page (part.get t)
  insw_result n to page t =
      ap (of_result part) (handle_io_lem hs port 2 n to page t).1
      ∙ put_back (read_ports hs port 2 n t)
      ∙ ap (λ (m : Outcome (List ℕ × S)). m >>= placed (h ∷ []) port 2 page to) (words_result n t)
      ∙ sym (handle_io_lem (h ∷ []) port 2 n to page (part.get t)).1
    where
      put_back :
          (m : Outcome (List ℕ × T))
          → of_result part (m >>= placed hs port 2 page to)
            ≡ (of_result part m >>= placed (h ∷ []) port 2 page to)
      put_back (ok r) = refl
      put_back abort = refl
      put_back fault = refl
