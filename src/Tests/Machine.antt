-- ===== src/Tests/Machine.antt =====
-- devices/x86/cmos.c, devices/x86/qemu_paravirt.c and system.c: the clock and the memory sizes.
use kvmulate.Prelude.{ℕ, ◌+◌, ◌*◌, ◌^◌, ◌≡◌, ◌<◌, refl, abort, ◌>>=◌, arith, Returns, zeros}
use kvmulate.MemoryMap.{map_ram, end_of, low_extended, above_hole, ram_end}
use kvmulate.Cmos.{Tm, Cmos, x86_cmos_init}
use kvmulate.Cmos.Clock.{clock_lem, Gives, bcd2bin, hour_of, IsTime, read_register}
use kvmulate.Cmos.Memory.{cmos-map_ram, read_extended, read_high}
use kvmulate.Paravirt.{Paravirt, qemupara_outw, e820_table}
use kvmulate.Paravirt.Items.{read_bytes, bytes_of, read_bytes-qemupara_outw}

-- 28 February 2014, 23:59:07.
abbrev evening : Tm
evening = record { tm_sec = 7; tm_min = 59; tm_hour = 23; tm_mday = 28; tm_mon = 1; tm_year = 114 }

evening-IsTime : IsTime evening
evening-IsTime = record {
  sec = omega arith;
  min = omega arith;
  hour = omega arith;
  mday = omega arith;
  mon = omega arith;
}

abbrev cmos : Cmos
cmos = x86_cmos_init (ram_end 4096)

clock_lem_example :
    Gives evening cmos 0x00 bcd2bin 7
    × Gives evening cmos 0x02 bcd2bin 59
    × Gives evening cmos 0x04 hour_of 23
    × Gives evening cmos 0x07 bcd2bin 28
    × Gives evening cmos 0x08 bcd2bin 2
    × Returns
        (λ q. Returns (λ r. 100 * r.0 + bcd2bin q.0 ≡ 114) (read_register evening 0x32 q.1))
        (read_register evening 0x09 cmos)
clock_lem_example = clock_lem evening cmos evening-IsTime refl (omega arith)

cmos-map_ram_example :
    Returns
      (λ v. 2 ^ 24 + v * 65536 ≡ end_of (low_extended (map_ram 4096)))
      (read_extended evening cmos)
    × Returns (λ v. v * 65536 ≡ above_hole (map_ram 4096)) (read_high evening cmos)
cmos-map_ram_example = cmos-map_ram evening 4096 (omega arith) (omega arith)

abbrev config : Paravirt
config = record { reg = 0; off = 1000; buff = zeros }

read_bytes-qemupara_outw_example :
    Returns (λ q. q.0 ≡ bytes_of e820_table 0 64) (qemupara_outw 0 0x8003 config >>= read_bytes 64)
    × ((n : ℕ) → 1024 < n → (qemupara_outw 0 0x8003 config >>= read_bytes n) ≡ abort)
read_bytes-qemupara_outw_example = read_bytes-qemupara_outw config
