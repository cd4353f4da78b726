-- ===== src/Ata/Words.antt =====
-- devices/x86/ata/controller.c: a transfer through the data port, word by word (rep insw, outsw).
use kvmulate.Prelude.{
  ℕ, zero, suc, ◌+◌, ◌*◌, ◌≤◌, ◌<◌, ◌≡◌, refl, ◌∙◌, List, [], ◌∷◌, Outcome, ok, Returns->>=, some,
  arith, ◌>>=◌, Cells, get16, put16, length, ltb, Returns, if◌then◌else◌,
}
use mathlib.Core.Path.{subst, ap₂}
use kvmulate.Irq.{irq_set}
use kvmulate.Ata.{AtaController, Block, curr_dev, set_curr_dev, reg_status, reg_alternate_status}
use kvmulate.Ata.Ports.{pio_inw, pio_outw, flush}

unfoldable pub write_words : List ℕ → AtaController → Outcome AtaController
write_words [] c = ok c
write_words (w ∷ ws) c = pio_outw 0 w c >>= write_words ws

unfoldable pub read_words : ℕ → AtaController → Outcome (List ℕ × AtaController)
read_words zero c = ok ([], c)
read_words (suc n) c = do p ← pio_inw 0 c; q ← read_words n p.1; ok (p.0 ∷ q.0, q.1)

-- The bytes of the words `ws` from index `i` on, and the `n` words from there.
unfoldable pub put_words : Cells → ℕ → List ℕ → Cells
put_words a i [] = a
put_words a i (w ∷ ws) = put_words (put16 a i w) (i + 2) ws

unfoldable pub get_words : Cells → ℕ → ℕ → List ℕ
get_words a i zero = []
get_words a i (suc n) = get16 a i ∷ get_words a (i + 2) n

abbrev pub AllWords : List ℕ → Type 0
AllWords [] = Unit {0}
AllWords (w ∷ ws) = (w < 65536) × AllWords ws

-- The current drive takes in a sector buffer of `size` bytes, and has had `offset` of them.
abbrev pub receiving : AtaController → Cells → ℕ → ℕ → AtaController
receiving c bytes offset size =
    set_curr_dev
      (record (curr_dev c) {
        write_buffer = some (record { size = size; bytes = bytes });
        write_buffer_offset = offset;
        write_buffer_size = size;
      })
      c

-- It has had all, and has written them to the file.
abbrev pub received : AtaController → Cells → ℕ → AtaController
received c bytes size =
    let block : Block = record { size = size; bytes = bytes } in
    let d = record (curr_dev c) {
      write_buffer = some block;
      write_buffer_offset = size;
      write_buffer_size = size;
    } in
    let c' = set_curr_dev (flush block d) c in record c' { calls = irq_set 14 1 c.calls }

outw_more :
    (c : AtaController) (bytes : Cells) (offset size w : ℕ)
    → offset + 2 < size
    → pio_outw 0 w (receiving c bytes offset size)
      ≡ ok (receiving c (put16 bytes offset w) (offset + 2) size)
unfolding pio_outw
outw_more c bytes offset size w h = ground arith

outw_last :
    (c : AtaController) (bytes : Cells) (offset size w : ℕ)
    → offset + 2 ≡ size
    → pio_outw 0 w (receiving c bytes offset size) ≡ ok (received c (put16 bytes offset w) size)
unfolding pio_outw
outw_last c bytes offset size w h = ground arith

pub write_words-receiving :
    (w : ℕ) (ws : List ℕ) (c : AtaController) (bytes : Cells) (offset size : ℕ)
    → offset + 2 * length (w ∷ ws) ≡ size
    → write_words (w ∷ ws) (receiving c bytes offset size)
      ≡ ok (received c (put_words bytes offset (w ∷ ws)) size)
unfolding write_words put_words
write_words-receiving w [] c bytes offset size h =
    rw (outw_last c bytes offset size w (omega arith))
write_words-receiving w (v ∷ ws) c bytes offset size h =
    rw (outw_more c bytes offset size w (omega arith))
      (write_words-receiving v ws c (put16 bytes offset w) (offset + 2) size (omega arith))

-- The current drive has a sector buffer `b` to give, and has given `offset` bytes of it. It asks
-- for more reads (DRQ) exactly as long as bytes are left. Reading touches neither its file nor
-- the interrupt line.
pub record Sending (b : Block) (start : AtaController) (offset : ℕ) (c : AtaController)
    : Type 0 where
  pub buffer : (curr_dev c).read_buffer ≡ some b
  pub sized : (curr_dev c).read_buffer_size ≡ b.size
  pub given : (curr_dev c).read_buffer_offset ≡ offset
  pub status : (curr_dev c).reg reg_status ≡ (if ltb offset b.size then 0x48 else 0x40)
  pub alternate : (curr_dev c).reg reg_alternate_status ≡ (curr_dev c).reg reg_status
  pub file : (curr_dev c).backingfile ≡ (curr_dev start).backingfile
  pub calls : c.calls ≡ start.calls
  pub curr : c.curr ≡ start.curr

pio_inw-Sending :
    (b : Block) (start : AtaController) (offset : ℕ) (c : AtaController)
    → Sending b start offset c
    → offset + 2 ≤ b.size
    → Returns (λ p. (p.0 ≡ get16 b.bytes offset) × Sending b start (offset + 2) p.1) (pio_inw 0 c)
unfolding pio_inw
pio_inw-Sending b start offset c s h = ground arith

-- `n` words, the first of them at `offset`: the guest gets the bytes of the buffer in order.
pub read_words-Sending :
    (n : ℕ) (b : Block) (start : AtaController) (offset last : ℕ) (c : AtaController)
    → Sending b start offset c
    → offset + 2 * n ≡ last
    → last ≤ b.size
    → Returns (λ q. (q.0 ≡ get_words b.bytes offset n) × Sending b start last q.1) (read_words n c)
unfolding read_words get_words
read_words-Sending zero b start offset last c s e h =
    let same : offset ≡ last = omega arith in (refl, subst (λ i. Sending b start i c) same s)
read_words-Sending (suc n) b start offset last c s e h =
    Returns->>=
      (λ (p : ℕ × AtaController). (p.0 ≡ get16 b.bytes offset) × Sending b start (offset + 2) p.1) _
      (pio_inw 0 c) _ (pio_inw-Sending b start offset c s (omega arith))
      λ p first.
        Returns->>=
          (λ (q : List ℕ × AtaController).
            (q.0 ≡ get_words b.bytes (offset + 2) n) × Sending b start last q.1)
          _ (read_words n p.1) _
          (read_words-Sending n b start (offset + 2) last p.1 first.1 (omega arith) h)
          λ q rest. (ap₂ ◌∷◌ first.0 rest.0, rest.1)

pub put_words_below : (ws : List ℕ) (a : Cells) (i j : ℕ) → j < i → put_words a i ws j ≡ a j
unfolding put_words
put_words_below [] a i j h = refl
put_words_below (w ∷ ws) a i j h =
    put_words_below ws (put16 a i w) (i + 2) j (omega arith) ∙ ground arith

-- The words come back from the bytes that they were stored as.
pub get_words-put_words :
    (ws : List ℕ) (a : Cells) (i : ℕ)
    → AllWords ws
    → get_words (put_words a i ws) i (length ws) ≡ ws
unfolding get_words put_words
get_words-put_words [] a i h = refl
get_words-put_words (w ∷ ws) a i h =
    let low = put_words_below ws (put16 a i w) (i + 2) i (omega arith) in
    let high = put_words_below ws (put16 a i w) (i + 2) (i + 1) (omega arith) in
    ap₂ ◌∷◌ (ground (arith, low, high, h.0)) (get_words-put_words ws (put16 a i w) (i + 2) h.1)

-- Words are read from their bytes alone.
pub get_words_ext :
    (n : ℕ) (a b : Cells) (i last : ℕ)
    → i + 2 * n ≡ last
    → ((j : ℕ) → j < last → a j ≡ b j)
    → get_words a i n ≡ get_words b i n
unfolding get_words
get_words_ext zero a b i last e h = refl
get_words_ext (suc n) a b i last e h =
    ap₂ ◌∷◌ (omega (arith, h i (omega arith), h (i + 1) (omega arith)))
      (get_words_ext n a b (i + 2) last (omega arith) h)
