-- ===== src/Exits/Streams.antt =====
-- system.c: an exit for several elements (rep ins, rep outs) as accesses one after the other.
use kvmulate.Prelude.{
  ℕ, zero, suc, ◌+◌, ◌≡◌, refl, true, false, List, [], ◌∷◌, Outcome, ok, abort, fault, ◌>>=◌, ◌==◌,
  if◌then◌else◌, Cells, update, get16, get32, put16, put32, run, arith, ap, fun_ext, ◌∙◌, sym,
}
use kvmulate.Io.{IoHandler, io_outb, io_outw, io_outl, io_inb, io_inw, io_inl}
use kvmulate.Exits.{out_element, in_element, out_loop, in_loop, handle_io}

-- The `count` elements of `size` bytes from `offset` on, and their place after a read.
abbrev pub get_element : ℕ → Cells → ℕ → ℕ
get_element size page offset =
    if size == 1 then page offset else if size == 2 then get16 page offset else get32 page offset

abbrev pub put_element : ℕ → Cells → ℕ → ℕ → Cells
put_element size page offset v =
    if size == 1
    then update page offset v
    else if size == 2
    then put16 page offset v
    else put32 page offset v

unfoldable pub get_elements : ℕ → Cells → ℕ → ℕ → List ℕ
get_elements size page offset zero = []
get_elements size page offset (suc n) =
    get_element size page offset ∷ get_elements size page (offset + size) n

unfoldable pub put_elements : ℕ → Cells → ℕ → List ℕ → Cells
put_elements size page offset [] = page
put_elements size page offset (v ∷ vs) =
    put_elements size (put_element size page offset v) (offset + size) vs

module _ {S : Type 0} (hs : List (IoHandler S)) (port size : ℕ) where
  -- One access of the width, which is 1, 2 or 4.
  abbrev pub write_port : ℕ → S → Outcome S
  write_port v s =
      if size == 1
      then io_outb hs port v s
      else if size == 2
      then io_outw hs port v s
      else if size == 4
      then io_outl hs port v s
      else abort

  abbrev pub read_port : S → Outcome (ℕ × S)
  read_port s =
      if size == 1
      then io_inb hs port s
      else if size == 2
      then io_inw hs port s
      else if size == 4
      then io_inl hs port s
      else abort

  unfoldable pub read_ports : ℕ → S → Outcome (List ℕ × S)
  read_ports zero s = ok ([], s)
  read_ports (suc n) s = read_port s >>= λ q. read_ports n q.1 >>= λ r. ok (q.0 ∷ r.0, r.1)

  out_element-write_port :
      (page : Cells) (offset : ℕ) (s : S)
      → out_element hs port size page offset s ≡ write_port (get_element size page offset) s
  out_element-write_port page offset s = ground arith

  in_element-read_port :
      (page : Cells) (offset : ℕ) (s : S)
      → in_element hs port size page offset s
        ≡ (read_port s >>= λ q. ok (put_element size page offset q.0, q.1))
  in_element-read_port page offset s = ground arith

  out_loop-run :
      (page : Cells) (n offset : ℕ) (s : S)
      → out_loop hs port size page n offset s ≡ run write_port (get_elements size page offset n) s
  unfolding out_loop run get_elements
  out_loop-run page zero offset s = refl
  out_loop-run page (suc n) offset s = rw (out_element-write_port page offset s) (
      ap (λ (k : S → Outcome S). write_port (get_element size page offset) s >>= k)
        (fun_ext (λ t. out_loop-run page n (offset + size) t)))

  -- The page after the elements that were read are in place.
  abbrev pub placed : Cells → ℕ → List ℕ × S → Outcome (Cells × S)
  placed page offset q = ok (put_elements size page offset q.0, q.1)

  abbrev pub consed : ℕ → List ℕ × S → Outcome (List ℕ × S)
  consed v r = ok (v ∷ r.0, r.1)

  place-cons :
      (page : Cells) (offset v : ℕ) (m : Outcome (List ℕ × S))
      → (m >>= consed v >>= placed page offset)
        ≡ (m >>= placed (put_element size page offset v) (offset + size))
  unfolding put_elements
  place-cons page offset v (ok r) = refl
  place-cons page offset v abort = refl
  place-cons page offset v fault = refl

  in_loop-read_ports :
      (n offset : ℕ) (page : Cells) (s : S)
      → in_loop hs port size n offset (page, s) ≡ (read_ports n s >>= placed page offset)
  unfolding in_loop read_ports put_elements
  in_loop-read_ports zero offset page s = refl
  in_loop-read_ports (suc n) offset page s = rw (in_element-read_port page offset s) (
      go (read_port s)
        (λ v t. in_loop-read_ports n (offset + size) (put_element size page offset v) t))
    where
      go :
          (m : Outcome (ℕ × S))
          → ((v : ℕ) (t : S)
              → in_loop hs port size n (offset + size) (put_element size page offset v, t)
                ≡ (read_ports n t >>= placed (put_element size page offset v) (offset + size)))
          → (m
              >>= (λ q. ok (put_element size page offset q.0, q.1))
              >>= in_loop hs port size n (offset + size))
            ≡ (m >>= (λ q. read_ports n q.1 >>= consed q.0) >>= placed page offset)
      go (ok q) rest = rest q.0 q.1 ∙ sym (place-cons page offset q.0 (read_ports n q.1))
      go abort rest = refl
      go fault rest = refl

  -- An exit for `n` elements of any size, which the program takes one by one: an output writes the
  -- elements that the exit's page holds, in order, and an input reads `n` times and leaves the
  -- values in the page one behind the other. A size that is not 1, 2 or 4 ends in an assertion if
  -- there is an element at all.
  pub handle_io_lem :
      (n offset : ℕ) (page : Cells) (s : S)
      → (handle_io hs true port size n offset page s
          ≡ (run write_port (get_elements size page offset n) s >>= λ t. ok (page, t)))
        × (handle_io hs false port size n offset page s ≡ (read_ports n s >>= placed page offset))
  unfolding handle_io
  handle_io_lem n offset page s = (
    ap (λ (m : Outcome S). m >>= λ t. ok (page, t)) (out_loop-run page n offset s),
    in_loop-read_ports n offset page s,
  )
