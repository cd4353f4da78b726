-- ===== src/Vga/Viewer/Keys.antt =====
-- devices/x86/vga/viewer.c and i8042.c: from a key of the host to the byte that the guest reads.
use kvmulate.Prelude.{
  get_elem?, Bool-cases, inl, inr, ℕ, ◌+◌, ◌%◌, ◌<◌, ◌≡◌, refl, ap, ◌∙◌, Bool, true, false, ◌&&◌,
  List, [], ◌∷◌, ◌++◌, Option, none, some, Outcome, ok, fault, ◌>>=◌, ltb, ◌==◌, if◌then◌else◌,
  arith, Returns, ==_iff, Returns-map,
}
use mathlib.Core.Option
use mathlib.Core.Path.{subst}
use kvmulate.Irq.{irq_set}
use kvmulate.Vga.Viewer.Layout.{set_1, seen_as}
use kvmulate.I8042.{Regs, kbd_inject, kbd_inb}
use kvmulate.I8042.Protocol.{kbd_inb-kbd_inject}

-- The table kssc up to its last entry, the numbers of the keys being SDL's: the code of the character
-- for those that have one.
abbrev pub keys : List (ℕ × ℕ)
keys =
    (b'1', 0x02)
    ∷ (b'2', 0x03)
    ∷ (b'3', 0x04)
    ∷ (b'4', 0x05)
    ∷ (b'5', 0x06)
    ∷ (b'6', 0x07)
    ∷ (b'7', 0x08)
    ∷ (b'8', 0x09)
    ∷ (b'9', 0x0A)
    ∷ (b'0', 0x0B)
    ∷ (b'a', 0x1E)
    ∷ (b'b', 0x30)
    ∷ (b'c', 0x2E)
    ∷ (b'd', 0x20)
    ∷ (b'e', 0x12)
    ∷ (b'f', 0x21)
    ∷ (b'g', 0x22)
    ∷ (b'h', 0x23)
    ∷ (b'i', 0x17)
    ∷ (b'j', 0x24)
    ∷ (b'k', 0x25)
    ∷ (b'l', 0x26)
    ∷ (b'm', 0x32)
    ∷ (b'n', 0x31)
    ∷ (b'o', 0x18)
    ∷ (b'p', 0x19)
    ∷ (b'q', 0x10)
    ∷ (b'r', 0x13)
    ∷ (b's', 0x1F)
    ∷ (b't', 0x14)
    ∷ (b'u', 0x16)
    ∷ (b'v', 0x2F)
    ∷ (b'w', 0x11)
    ∷ (b'x', 0x2D)
    ∷ (b'y', 0x15)
    ∷ (b'z', 0x2C)
    ∷ (282, 0x3B)
    ∷ (283, 0x3C)
    ∷ (284, 0x3D)
    ∷ (285, 0x3E)
    ∷ (286, 0x3F)
    ∷ (287, 0x40)
    ∷ (288, 0x41)
    ∷ (289, 0x42)
    ∷ (290, 0x43)
    ∷ (291, 0x44)
    ∷ (292, 0x45)
    ∷ (293, 0x46)
    ∷ (13, 0x1C)
    ∷ (32, 0x39)
    ∷ (308, 0x38)
    ∷ (304, 0x2A)
    ∷ (306, 0x1D)
    ∷ (27, 0x01)
    ∷ (9, 0x0F)
    ∷ (8, 0x0E)
    ∷ (274, 0x50)
    ∷ (273, 0x48)
    ∷ (276, 0x4B)
    ∷ (275, 0x4D)
    ∷ (44, 0x33)
    ∷ (46, 0x34)
    ∷ (59, 0x27)
    ∷ []

unfoldable pub kssc : List (ℕ × ℕ)
kssc = keys ++ (0, 0) ∷ []

-- The loop from an entry on; behind the end of the table it reads outside.
unfoldable pub search_keysym : ℕ → List (ℕ × ℕ) → Outcome (Option ℕ)
search_keysym key [] = fault
search_keysym key ((k, sc) ∷ rest) =
    if k == 0 then ok none else if k == key then ok (some sc) else search_keysym key rest

-- `none` is the result -1.
pub keysym_to_scancode : ℕ → Outcome (Option ℕ)
keysym_to_scancode key = search_keysym key kssc

pub data SdlEvent : Type 0 where
  key_event : Bool → ℕ → SdlEvent
  other : SdlEvent

-- The body of the loop of SDL_PollEvent: SDL_KEYDOWN and SDL_KEYUP. dump_info only logs.
pub handle_event : SdlEvent → Regs → Outcome Regs
unfolding keysym_to_scancode
handle_event other r = ok r
handle_event (key_event pressed k) r = keysym_to_scancode k >>= λ found. elim found [
  | none ↦ ok r
  | some sc ↦ ok (kbd_inject sc pressed r)
]

abbrev pub scancode_of : ℕ → List (ℕ × ℕ) → Option ℕ
scancode_of key [] = none
scancode_of key ((k, sc) ∷ rest) = if k == key then some sc else scancode_of key rest

abbrev is_key : ℕ → Option ℕ → Bool
is_key k none = false
is_key k (some j) = j == k

abbrev all_entries : List (ℕ × ℕ) → Bool
all_entries [] = true
all_entries ((k, sc) ∷ rest) =
    ltb 0 k && ltb sc 128 && is_key (seen_as k) (get_elem? set_1 sc) && all_entries rest

-- Every entry has a key other than 0, a scan code of seven bits, and what the keyboard's own numbering
-- has at that code.
keys_table : all_entries keys ≡ true
unfolding set_1 seen_as
keys_table = refl

search_keysym_lem :
    (k : ℕ) (ks : List (ℕ × ℕ))
    → all_entries ks ≡ true
    → search_keysym k (ks ++ (0, 0) ∷ []) ≡ ok (scancode_of k ks)
unfolding search_keysym
search_keysym_lem k [] h = refl
search_keysym_lem k ((j, sc) ∷ ks) h = ground (arith, search_keysym_lem k ks)

is_key_lem : (k : ℕ) (o : Option ℕ) → is_key k o ≡ true → o ≡ some k
is_key_lem k none h = cc
is_key_lem k (some j) h = ap some ((==_iff j k).0 h)

-- The code of a key is that of the keyboard's numbering.
scancode_of-set_1 :
    (k sc : ℕ) (ks : List (ℕ × ℕ))
    → all_entries ks ≡ true
    → scancode_of k ks ≡ some sc
    → (sc < 128) × (get_elem? set_1 sc ≡ some (seen_as k))
scancode_of-set_1 k sc [] h e = cc
scancode_of-set_1 k sc ((j, c) ∷ ks) h e =
    let entry : (c < 128)
        × (is_key (seen_as j) (get_elem? set_1 c) ≡ true)
        × (all_entries ks ≡ true) =
      ground arith in
    elim (Bool-cases (j == k)) [
      | inl hit ↦
          let found : some c ≡ some sc = rw hit at e in
          let code : c ≡ sc = cc in
          subst (λ (x : ℕ). (x < 128) × (get_elem? set_1 x ≡ some (seen_as k))) code
            (
              entry.0,
              is_key_lem (seen_as j) (get_elem? set_1 c) entry.1
                  ∙ ap (λ (x : ℕ). some (seen_as x)) ((==_iff j k).0 hit),
            )
      | inr miss ↦ scancode_of-set_1 k sc ks entry.2 (rw miss at e)
    ]

-- What a guest makes of a byte of the keyboard, by scan code set 1: the key, and whether it was pressed.
abbrev pub guest_key : ℕ → Option (ℕ × Bool)
guest_key v = Option.map (λ k. (k, ltb v 128)) (get_elem? set_1 (v % 128))

-- The effect of an event of the key `k` whose scan code is the last argument.
abbrev pub Typed : Bool → ℕ → Regs → Option ℕ → Type 0
Typed pressed k r none = handle_event (key_event pressed k) r ≡ ok r
Typed pressed k r (some sc) =
    Returns
      (λ r'.
        (r'.calls ≡ irq_set 1 1 r.calls)
        × Returns (λ p. guest_key p.0 ≡ some (seen_as k, pressed)) (kbd_inb 0 r'))
      (handle_event (key_event pressed k) r)

pub handle_event-scancode :
    (pressed : Bool) (k : ℕ) (r : Regs) (o : Option ℕ)
    → scancode_of k keys ≡ o
    → handle_event (key_event pressed k) r
      ≡ elim o [ none ↦ ok r | some sc ↦ ok (kbd_inject sc pressed r) ]
unfolding handle_event kssc
handle_event-scancode pressed k r o e = rw (search_keysym_lem k keys keys_table ∙ ap ok e)

pub handle_event-other : (r : Regs) → handle_event other r ≡ ok r
unfolding handle_event
handle_event-other r = refl

guest_key_lem :
    (k sc : ℕ) (pressed : Bool)
    → sc < 128
    → get_elem? set_1 sc ≡ some k
    → guest_key (if pressed then sc else sc + 128) ≡ some (k, pressed)
guest_key_lem k sc true small e =
    let m : sc % 128 ≡ sc = omega arith in let t : ltb sc 128 ≡ true = ground arith in rw (m, t, e)
guest_key_lem k sc false small e =
    let m : (sc + 128) % 128 ≡ sc = omega arith in
    let t : ltb (sc + 128) 128 ≡ false = ground arith in rw (m, t, e)

-- For every key of the host and either event: the table is never read outside. A key that is not
-- in it does nothing. For one that is, line 1 is raised, and the next byte that the guest reads from
-- the keyboard is, by scan code set 1, that of the key, pressed or released, except that an arrow
-- key has the code of the number pad's and F11 and F12 those of the locks for numbers and scrolling.
pub handle_event_lem :
    (pressed : Bool) (k : ℕ) (r : Regs) → r.status < 256 → Typed pressed k r (scancode_of k keys)
handle_event_lem pressed k r byte = go (scancode_of k keys) refl
  where
    go : (o : Option ℕ) → scancode_of k keys ≡ o → Typed pressed k r o
    go none e = handle_event-scancode pressed k r none e
    go (some sc) e =
        let entry = scancode_of-set_1 k sc keys keys_table e in
        let got = kbd_inb-kbd_inject sc pressed r entry.0 byte in
        rw (handle_event-scancode pressed k r (some sc) e) (
          got.1,
          Returns-map _ (λ p. guest_key p.0 ≡ some (seen_as k, pressed))
              (kbd_inb 0 (kbd_inject sc pressed r)) got.2
              (λ p known.
                ap guest_key known.0 ∙ guest_key_lem (seen_as k) sc pressed entry.0 entry.1),
        )
