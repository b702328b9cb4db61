-- ===== src/Structs/Time.antt =====
-- android/structs: the conversions of timespec64.py and timespec32.py, and `from_struct_time` of
-- tm64.py.
use emulite.Base.{◌≡◌, arith}
use emulite.Base.Int.{ℤ, pos, negsuc, +ℤ, times, floor_div, floor_mod}
use emulite.Structs.Clock.{TimeSpec64, TimeSpec32, Tm64}

-- TimeSpec64 and TimeSpec32: `from_ns` and `total_ns`
unfoldable pub from_ns64 : ℤ → TimeSpec64
from_ns64 total = record {
  sec = floor_div total 1_000_000_000;
  nsec = floor_mod total 1_000_000_000;
}

unfoldable pub total_ns64 : TimeSpec64 → ℤ
total_ns64 t = +ℤ (times t.sec 1_000_000_000) t.nsec

unfoldable pub from_ns32 : ℤ → TimeSpec32
from_ns32 total = record {
  sec = floor_div total 1_000_000_000;
  nsec = floor_mod total 1_000_000_000;
}

unfoldable pub total_ns32 : TimeSpec32 → ℤ
total_ns32 t = +ℤ (times t.sec 1_000_000_000) t.nsec

-- A number of nanoseconds, negative ones too, comes back from the structure of either width that
-- `from_ns` makes of it, and the nanoseconds of that structure are from 0 to 999999999.
total_ns-from_ns :
    (t : ℤ)
    → (total_ns64 (from_ns64 t) ≡ t)
      × (total_ns32 (from_ns32 t) ≡ t)
      × (floor_mod (from_ns64 t).nsec 1_000_000_000 ≡ (from_ns64 t).nsec)
      × (floor_mod (from_ns32 t).nsec 1_000_000_000 ≡ (from_ns32 t).nsec)
unfolding total_ns64 from_ns64 total_ns32 from_ns32
total_ns-from_ns (pos n) = (ground arith, ground arith, ground arith, ground arith)
total_ns-from_ns (negsuc n) = (ground arith, ground arith, ground arith, ground arith)

-- Python's time.struct_time
pub record StructTime : Type 0 where
  pub tm_sec : ℤ
  pub tm_min : ℤ
  pub tm_hour : ℤ
  pub tm_mday : ℤ
  pub tm_mon : ℤ
  pub tm_year : ℤ
  pub tm_wday : ℤ
  pub tm_yday : ℤ
  pub tm_isdst : ℤ

unfoldable pub from_struct_time : StructTime → ℤ → ℤ → Tm64
from_struct_time st gmtoff zone = record {
  sec = st.tm_sec;
  min = st.tm_min;
  hour = st.tm_hour;
  mday = st.tm_mday;
  mon = +ℤ st.tm_mon (negsuc 0);
  year = +ℤ st.tm_year (negsuc 1899);
  wday = floor_mod (+ℤ st.tm_wday (pos 1)) 7;
  yday = +ℤ st.tm_yday (negsuc 0);
  isdst = st.tm_isdst;
  gmtoff = gmtoff;
  zone = zone;
}
