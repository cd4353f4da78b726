-- ===== src/Ata/Identify.antt =====
-- devices/x86/ata/controller.c: the 256 words that IDENTIFY DEVICE answers with.
use Prim.Native.Char.{code}
use Prim.Native.String.{String}
use kvmulate.Prelude.{
  ℕ, zero, suc, ◌+◌, ◌-◌, ◌*◌, ◌/◌, ◌%◌, ◌^◌, ◌&&◌, bit_or, Cells, zeros, update, ltb, leb,
  if◌then◌else◌,
}
use kvmulate.Files.{File}
use kvmulate.Ata.{AtaDev}

-- The characters of a text, then zeros: what strncpy writes.
abbrev chars : String → Cells
chars String.[] i = 0
chars (String.◌∷◌ c s) zero = code c
chars (String.◌∷◌ c s) (suc i) = chars s i

-- strncpy((char *)&words[at],s,2 * n)
abbrev put_text : Cells → ℕ → String → ℕ → Cells
put_text words at s n j =
    if leb at j && ltb j (at + n)
    then chars s (2 * (j - at)) + 256 * chars s (2 * (j - at) + 1)
    else words j

-- size / 512LL, as a uint32
unfoldable pub dev_num_sectors : File → ℕ
dev_num_sectors f = f.size / 512 % 2 ^ 32

-- ((tmp & 0xFF)<<8) | ((tmp & 0xFF00)>>8), of a word
unfoldable pub swap_word : ℕ → ℕ
swap_word w = bit_or (w % 256 * 256) (w / 256 % 256)

-- One round of the loop that turns the model number to big endian.
swap_words : ℕ → ℕ → Cells → Cells
unfolding swap_word
swap_words zero i words = words
swap_words (suc n) i words =
    swap_words n (i + 1) (update words (27 + i) (swap_word (words (27 + i))))

unfoldable pub heads : ℕ → ℕ
heads sectors = if leb sectors 8257536 then 16 else if ltb 16514064 sectors then 15 else 16

abbrev pub sectors_per_track : ℕ
sectors_per_track = 63

unfoldable pub cylinders : ℕ → ℕ
unfolding heads
cylinders sectors = sectors / (heads sectors * sectors_per_track) % 65536

identify_words : ℕ → Cells
unfolding cylinders heads
identify_words sectors =
    let low : ℕ = sectors % 65536 in
    let high : ℕ = sectors / 65536 % 65536 in
    let w0 = update zeros 0 66 in
    let w1 = put_text w0 10 "Serial Number" 10 in
    let w2 = put_text w1 23 "FW" 3 in
    let w3 = put_text w2 27 "KVMulate VirtuHD" 20 in
    let w4 = update (update w3 50 (2 ^ 14)) 53 1 in
    let w5 = update (update (update (update w4 57 low) 58 high) 60 low) 61 high in
    update (update (update w5 3 (heads sectors)) 6 sectors_per_track) 1 (cylinders sectors)

unfoldable pub build_identify_data : AtaDev → AtaDev
unfolding identify_words dev_num_sectors swap_words
build_identify_data d = record d {
  identify = swap_words 20 0 (identify_words (dev_num_sectors d.backingfile));
}
