-- ===== src/Machine/Printing.antt =====
-- system.c, mmio.c and devices/x86/vga/ram.c: the exits of a guest of the whole machine that writes
-- words to the VGA's window, one behind the other.
use kvmulate.Prelude.{
  get_elem?, ℕ, zero, suc, ◌+◌, ◌*◌, ◌/◌, ◌%◌, ◌≤◌, ◌≡◌, ◌≢◌, refl, ap, ◌∙◌, sym, true, List, [],
  ◌∷◌, some, ok, arith, Cells, zeros, get16, put16, get16-put16, length, Returns, Returns->>=,
}
use mathlib.Core.Path.{subst}
use kvmulate.Io.{IoHandler}
use kvmulate.Ata.Words.{AllWords, put_words, put_words_below}
use kvmulate.Exits.{handle_mmio}
use kvmulate.System.Run.{VmExit, mmio, Loop, running, done, before, sys_run_vcpu}
use kvmulate.Vga.{Vga}
use kvmulate.Vga.Rom.{Rom}
use kvmulate.Machine.{Machine}
use kvmulate.Machine.Memory.{memory_devices}
use kvmulate.Machine.Window.{Wrote, write_word}

-- The exits of a guest that writes words one behind the other.
unfoldable pub print_exits : ℕ → List ℕ → List VmExit
print_exits address [] = []
print_exits address (w ∷ ws) = mmio true address 2 (put16 zeros 0 w) ∷ print_exits (address + 2) ws

-- The loop goes on, and plane 0 holds the words.
abbrev pub Printed : Machine → ℕ → List ℕ → Loop Machine → Type 0
Printed m o ws (running pages n) =
    (n.functions ≡ m.functions)
    × (n.screen.vga ≡ m.screen.vga)
    × (n.screen.planes 0 ≡ put_words (m.screen.planes 0) o ws)
Printed m o ws (done pages n) = ⊥

module _ (hs : List (IoHandler Machine)) where
  Printed-before :
      (m n : Machine) (o w : ℕ) (ws : List ℕ) (page : Cells) (l : Loop Machine)
      → Wrote m o w n
      → Printed n (o + 2) ws l
      → Printed m o (w ∷ ws) (before hs memory_devices page l)
  unfolding put_words
  Printed-before m n o w ws page (running pages p) first rest = (
    rest.0 ∙ first.0,
    rest.1 ∙ first.1,
    rest.2 ∙ ap (λ (c : Cells). put_words c (o + 2) ws) first.2,
  )
  Printed-before m n o w ws page (done pages p) first rest = rest

  pub print_lem :
      (ws : List ℕ) (m : Machine) (o : ℕ)
      → o + 2 * length ws ≤ 0x20000
      → m.functions.0.base ≢ 0xA0000
      → m.screen.vga.seq_reg 2 % 2 ≡ 1
      → AllWords ws
      → Returns (Printed m o ws) (sys_run_vcpu hs memory_devices (print_exits (0xA0000 + o) ws) m)
  unfolding sys_run_vcpu print_exits put_words
  print_lem [] m o room free mask words = (refl, refl, refl)
  print_lem (w ∷ ws) m o room free mask words =
      let bytes = put16 zeros 0 w in
      let same : get16 bytes 0 ≡ w = get16-put16 zeros 0 w words.0 in
      Returns->>= (λ (q : Cells × Machine). Wrote m o (get16 bytes 0) q.1) (Printed m o (w ∷ ws))
        (handle_mmio (memory_devices m) true (0xA0000 + o) 2 bytes m) _
        (write_word m o bytes (omega arith) free mask)
        λ q first.
          let wrote : Wrote m o w q.1 = subst (λ v. Wrote m o v q.1) same first in
          let moved : 0xA0000 + (o + 2) ≡ 0xA0000 + o + 2 = omega arith in
          Returns->>= (Printed q.1 (o + 2) ws) (Printed m o (w ∷ ws))
            (sys_run_vcpu hs memory_devices (print_exits (0xA0000 + o + 2) ws) q.1)
            (λ l. ok (before hs memory_devices q.0 l))
            (subst
              (λ (a : ℕ).
                Returns (Printed q.1 (o + 2) ws)
                  (sys_run_vcpu hs memory_devices (print_exits a ws) q.1))
              moved
              (print_lem ws q.1 (o + 2) (omega arith)
                (subst (λ (f : Rom × Cells). f.0.base ≢ 0xA0000) (sym wrote.0) free)
                (subst (λ (v : Vga). v.seq_reg 2 % 2 ≡ 1) (sym wrote.1) mask) words.1))
            (λ l rest. Printed-before m q.1 o w ws q.0 l wrote rest)

pub put_words_above :
    (ws : List ℕ) (a : Cells) (i j : ℕ) → i + 2 * length ws ≤ j → put_words a i ws j ≡ a j
unfolding put_words
put_words_above [] a i j h = refl
put_words_above (w ∷ ws) a i j h =
    put_words_above ws (put16 a i w) (i + 2) j (omega arith) ∙ ground arith

-- The bytes of a word.
pub put_words_at :
    (ws : List ℕ) (a : Cells) (i k j j' v : ℕ)
    → get_elem? ws k ≡ some v
    → AllWords ws
    → j ≡ i + 2 * k
    → j' ≡ j + 1
    → (put_words a i ws j ≡ v % 256) × (put_words a i ws j' ≡ v / 256)
unfolding put_words
put_words_at [] a i k j j' v e words at next = cc
put_words_at (w ∷ ws) a i zero j j' v e words at next =
    let same : w ≡ v = cc in
    let low = put_words_below ws (put16 a i w) (i + 2) j (omega arith) in
    let high = put_words_below ws (put16 a i w) (i + 2) j' (omega arith) in
    ground (arith, same, low, high, words.0)
put_words_at (w ∷ ws) a i (suc k) j j' v e words at next =
    put_words_at ws (put16 a i w) (i + 2) k j j' v e words.1 (omega arith) next
