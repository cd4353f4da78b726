-- ===== src/System/Images.antt =====
-- system.c and devices/x86/vga/rom.c: what becomes of the image files, by their lengths.
use kvmulate.Prelude.{
  ℕ, ◌-◌, ◌%◌, ◌^◌, ◌<◌, ◌≡◌, inl, inr, refl, ap, ◌∙◌, true, false, ◌||◌, Outcome, ok, abort, fault,
  assert, ◌>>=◌, ◌>>◌, ltb, leb, if◌then◌else◌, Option, some, Cells, zeros, copy, sym, >>=_assoc,
  min, arith, Bool-cases,
}
use native.Mathlib.Decide.{dec_lt, dec_le}
use kvmulate.Prelude.Int.{ℤ, pos, negsuc, as_int, at_most}
use kvmulate.Files.{File, file_length, int_size, image_area, read_image, loaded}
use kvmulate.System.{image, page_length, load_image}
use kvmulate.Vga.Rom.{load_bios}

-- How loading an image that is `n` bytes long, as a number without a sign, ends: one of at most
-- 128 KB is read and a longer one is refused, but the greatest positive lengths overflow, and a
-- negative one passes.
abbrev pub accepted : ℕ → Outcome (Unit {0})
accepted n =
    if leb n 0x20000 || leb (2 ^ 31) n
    then ok tt
    else if leb n (2 ^ 31 - 0x1000)
    then abort
    else fault

-- The assertion of load_image, on an int.
abbrev fits_area : ℤ → Outcome (Unit {0})
fits_area flen = page_length flen >>= λ mlen. assert (at_most mlen 0x20000)

fits_area-pos : (n : ℕ) → n < 2 ^ 31 → fits_area (pos n) ≡ accepted n
unfolding page_length
fits_area-pos n h = ground arith

fits_area-negsuc : (n : ℕ) → fits_area (negsuc n) ≡ ok tt
unfolding page_length
fits_area-negsuc n = ground arith

fits_area-as_int : (n : ℕ) → fits_area (as_int n) ≡ accepted (n % 2 ^ 32)
fits_area-as_int n = elim (dec_lt (n % 2 ^ 32) (2 ^ 31)) [
  | yes small ↦
      let e : ltb (n % 2 ^ 32) (2 ^ 31) ≡ true = ground (arith, small) in
      rw e (fits_area-pos (n % 2 ^ 32) small)
  | no large ↦
      let e : ltb (n % 2 ^ 32) (2 ^ 31) ≡ false = ground (arith, large) in
      rw (e, fits_area-negsuc (2 ^ 32 - 1 - n % 2 ^ 32)) (ground (arith, large))
]

module _ {B : Type 0} (buffer : Cells) (f : File) (k : Cells → Outcome B) where
  -- What is read after the assertion.
  read_accepted :
      (accepted (int_size f) >> (read_image buffer (file_length f) f >>= k))
      ≡ (accepted (int_size f) >> k (loaded buffer f))
  unfolding read_image
  read_accepted = elim (dec_lt (int_size f) (2 ^ 31)) [
    | yes small ↦
        let e : ltb (int_size f) (2 ^ 31) ≡ true = ground (arith, small) in
        let g : min (int_size f) f.size ≡ int_size f = omega arith in rw (e, g) (by_length small)
    | no large ↦
        let e : ltb (int_size f) (2 ^ 31) ≡ false = ground (arith, large) in
        let g : leb (int_size f) 0x20000 ≡ false = ground (arith, large) in rw (e, g) refl
  ]
    where
      n : ℕ
      n = int_size f

      read : Cells
      read = copy buffer 0 f.byte 0 n

      by_length :
          n < 2 ^ 31
          → (accepted n >> ((if ltb image_area n then fault else ok read) >>= k))
            ≡ (accepted n >> k (if leb n 0x20000 then read else buffer))
      by_length small = elim (dec_le n 0x20000) [
        | yes short ↦
            let e : leb n 0x20000 ≡ true = ground (arith, short) in
            let g : ltb image_area n ≡ false = ground (arith, short) in rw (e, g) refl
        | no long ↦
            let e : leb n 0x20000 ≡ false = ground (arith, long) in
            let g : leb (2 ^ 31) n ≡ false = ground (arith, small) in
            rw (e, g)
              (elim (Bool-cases (leb n (2 ^ 31 - 0x1000))) [
                | inl t ↦ rw t refl
                | inr t ↦ rw t refl
              ])
      ]

pub load_image-accepted :
    (buffer : Cells) (f : File)
    → load_image buffer f ≡ (accepted (int_size f) >> ok (image (loaded buffer f)))
unfolding load_image
load_image-accepted buffer f =
    sym (
      >>=_assoc (page_length (file_length f)) (λ mlen. assert (at_most mlen 0x20000))
        (λ u. read_image buffer (file_length f) f >>= λ block. ok (image block)))
    ∙ ap
        (λ (m : Outcome (Unit {0})).
          m >> (read_image buffer (file_length f) f >>= λ block. ok (image block)))
        (fits_area-as_int f.size)
    ∙ read_accepted buffer f (λ block. ok (image block))

-- The VGA's initialisation reads the file again, without an assertion of its own.
pub load_bios-accepted :
    {B : Type 0} (f : File) (k : Option Cells → Outcome B)
    → (accepted (int_size f) >> (load_bios (some f) >>= k))
      ≡ (accepted (int_size f) >> k (some (loaded zeros f)))
unfolding load_bios
load_bios-accepted f k =
    ap (λ (m : Outcome _). accepted (int_size f) >> m)
      (>>=_assoc (read_image zeros (file_length f) f) (λ block. ok (some block)) k)
    ∙ read_accepted zeros f (λ block. k (some block))
