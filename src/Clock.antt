-- ===== src/Clock.antt =====
-- src/emulite/android/virtual_clock.py, VirtualClock: nanoseconds that pass with each reading, and
-- by what a guest sleeps. The host's time at the start is an argument.
pub mod Readings
mod Tests
use emulite.Base.{ℕ, ◌+◌, ◌/◌, Bool, true, false, if◌then◌else◌}
use emulite.Base.Int.{ℤ, pos, negsuc, +ℤ, -ℤ, floor_div}

abbrev pub tick_ns : ℕ
tick_ns = 20_000

pub record VirtualClock : Type 0 where
  pub boot_realtime_ns : ℤ
  pub boot_uptime_ns : ℕ
  pub elapsed_ns : ℕ

-- `time_ns` is the host's `time.time_ns()`
unfoldable pub init : ℤ → ℕ → VirtualClock
init time_ns boot_uptime_ns = record {
  boot_realtime_ns = -ℤ time_ns (pos boot_uptime_ns);
  boot_uptime_ns = boot_uptime_ns;
  elapsed_ns = 0;
}

unfoldable pub monotonic_ns : Bool → VirtualClock → ℕ × VirtualClock
monotonic_ns advance this =
    let this' = if advance then record this { elapsed_ns = this.elapsed_ns + tick_ns } else this in
    (this'.boot_uptime_ns + this'.elapsed_ns, this')

unfoldable pub realtime_ns : Bool → VirtualClock → ℤ × VirtualClock
unfolding monotonic_ns
realtime_ns advance this =
    let (now, this') = monotonic_ns advance this in (+ℤ this.boot_realtime_ns (pos now), this')

-- max(nanos, 0)
abbrev pub at_least_zero : ℤ → ℕ
at_least_zero (pos n) = n
at_least_zero (negsuc n) = 0

unfoldable pub advance : ℤ → VirtualClock → VirtualClock
advance nanos this = record this { elapsed_ns = this.elapsed_ns + at_least_zero nanos }

unfoldable pub advance_to_realtime : ℤ → VirtualClock → VirtualClock
unfolding advance realtime_ns
advance_to_realtime nanos this = advance (-ℤ nanos (realtime_ns false this).0) this

unfoldable pub advance_to_monotonic : ℤ → VirtualClock → VirtualClock
unfolding advance monotonic_ns
advance_to_monotonic nanos this = advance (-ℤ nanos (pos (monotonic_ns false this).0)) this

unfoldable pub boot_realtime_s : VirtualClock → ℤ
boot_realtime_s this = floor_div this.boot_realtime_ns 1_000_000_000

unfoldable pub boot_uptime_s : VirtualClock → ℕ
boot_uptime_s this = this.boot_uptime_ns / 1_000_000_000

unfoldable pub uptime_s : VirtualClock → ℕ × VirtualClock
unfolding monotonic_ns
uptime_s this = let (now, this') = monotonic_ns true this in (now / 1_000_000_000, this')
