-- ===== src/Cmos/Clock.antt =====
-- devices/x86/cmos.c: the time of day and the date.
use kvmulate.Prelude.{
  ℕ, bit_or, ◌&&◌, ◌+◌, ◌-◌, ◌*◌, ◌/◌, ◌%◌, ◌<◌, ◌≤◌, ◌≡◌, refl, true, Bool-cases, inl, inr, ◌==◌,
  ==_iff, Outcome, ◌>>=◌, arith, ltb, leb, Returns, if◌then◌else◌,
}
use kvmulate.Prelude.Bytes.{every, every_lem}
use kvmulate.Cmos.{
  Tm, Cmos, dec2bcd, bin2bcd, read_hour, read_clock, read_memory, cmos_inb, cmos_outb,
}

-- What a guest makes of a byte of two decimal digits, and of an hour with the flag for PM.
abbrev pub bcd2bin : ℕ → ℕ
bcd2bin v = v / 16 * 10 + v % 16

abbrev pub hour_of : ℕ → ℕ
hour_of v = if leb 128 v then bcd2bin (v - 128) + 12 else bcd2bin v

digits_table : every 100 (λ x. bcd2bin (dec2bcd x) == x && ltb (dec2bcd x) 154) ≡ true
unfolding every dec2bcd
digits_table = refl

-- The two digits of a number below 100.
bcd2bin-dec2bcd : (x : ℕ) → x < 100 → bcd2bin (dec2bcd x) ≡ x
bcd2bin-dec2bcd x small = ground (arith, every_lem 100 _ x digits_table small)

century : (dec2bcd 0 ≡ 0) × (dec2bcd 1 ≡ 1)
unfolding dec2bcd
century = (refl, refl)

abbrev hour_byte : ℕ → ℕ
hour_byte h = if ltb 12 h then bit_or 0x80 (dec2bcd (h - 12)) else dec2bcd h

hours_table : every 24 (λ h. hour_of (hour_byte h) == h) ≡ true
unfolding every dec2bcd
hours_table = refl

hour_of-hour_byte : (h : ℕ) → h < 24 → hour_of (hour_byte h) ≡ h
hour_of-hour_byte h small = (==_iff _ _).0 (every_lem 24 _ h hours_table small)

-- The guest's access: the register number to the index port, then a read of the data port.
unfoldable pub read_register : Tm → ℕ → Cmos → Outcome (ℕ × Cmos)
read_register t i c = cmos_outb 0 i c >>= cmos_inb t 1

-- The ranges that C gives for the fields of what localtime returns. That of the year has no end.
pub record IsTime (t : Tm) : Type 0 where
  pub sec : t.tm_sec ≤ 60
  pub min : t.tm_min < 60
  pub hour : t.tm_hour < 24
  pub mday : t.tm_mday ≤ 31
  pub mon : t.tm_mon < 12

abbrev pub Gives : Tm → Cmos → ℕ → (ℕ → ℕ) → ℕ → Type 0
Gives t c i decode x = Returns (λ q. decode q.0 ≡ x) (read_register t i c)

module _ (t : Tm) (c : Cmos) (ok_time : IsTime t) (status : c.status_b ≡ 0) where
  fields :
      Gives t c 0x00 bcd2bin t.tm_sec
      × Gives t c 0x02 bcd2bin t.tm_min
      × Gives t c 0x07 bcd2bin t.tm_mday
      × Gives t c 0x08 bcd2bin (t.tm_mon + 1)
  unfolding read_register cmos_inb cmos_outb read_clock bin2bcd
  fields = (
    ground (arith, bcd2bin-dec2bcd t.tm_sec, ok_time.sec),
    ground (arith, bcd2bin-dec2bcd t.tm_min, ok_time.min),
    ground (arith, bcd2bin-dec2bcd t.tm_mday, ok_time.mday),
    ground (arith, bcd2bin-dec2bcd (t.tm_mon + 1), ok_time.mon),
  )

  hour_field : Gives t c 0x04 hour_of t.tm_hour
  unfolding read_register cmos_inb cmos_outb read_clock read_hour bin2bcd
  hour_field = ground (arith, hour_of-hour_byte t.tm_hour, ok_time.hour)

  year_field :
      t.tm_year < 200
      → Returns
          (λ q. Returns (λ r. 100 * r.0 + bcd2bin q.0 ≡ t.tm_year) (read_register t 0x32 q.1))
          (read_register t 0x09 c)
  unfolding read_register cmos_inb cmos_outb read_clock read_memory bin2bcd
  year_field short = elim (Bool-cases (leb 100 t.tm_year)) [
    | inl after ↦ ground (arith, bcd2bin-dec2bcd (t.tm_year - 100), century.1, short, after)
    | inr before ↦ ground (arith, bcd2bin-dec2bcd t.tm_year, century.0, before)
  ]

  -- In the years from 1900 to 2099, and for a time whose other fields are in the ranges that C gives:
  -- while the status register B is 0, a guest that selects the registers of the clock and takes what
  -- it reads for two decimal digits gets the time and the date that localtime gives, with the hour in
  -- 12-hour form where the top bit stands for another twelve, the month counted from 1, and the year
  -- in two digits with the century register counting the hundreds since 1900.
  pub clock_lem :
      t.tm_year < 200
      → Gives t c 0x00 bcd2bin t.tm_sec
        × Gives t c 0x02 bcd2bin t.tm_min
        × Gives t c 0x04 hour_of t.tm_hour
        × Gives t c 0x07 bcd2bin t.tm_mday
        × Gives t c 0x08 bcd2bin (t.tm_mon + 1)
        × Returns
            (λ q. Returns (λ r. 100 * r.0 + bcd2bin q.0 ≡ t.tm_year) (read_register t 0x32 q.1))
            (read_register t 0x09 c)
  clock_lem short =
      let (sec, min, mday, mon) = fields in (sec, min, hour_field, mday, mon, year_field short)
