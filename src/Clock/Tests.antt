-- ===== src/Clock/Tests.antt =====
-- The theorems on the clock, at concrete calls.
use emulite.Base.{◌≡◌, ◌≤◌, ◌+◌, ◌∷◌, [], true, false, if◌then◌else◌}
use emulite.Base.Int.{pos, negsuc, +ℤ, leb_ℤ}
use emulite.Clock.{
  VirtualClock, init, monotonic_ns, realtime_ns, advance_to_realtime, advance_to_monotonic,
  at_least_zero, tick_ns,
}
use emulite.Clock.Readings.{
  advance_call, monotonic_target_call, run_clock, monotonic_ns-run_clock, advance_to_target,
}

-- one second after boot
abbrev booted : VirtualClock
booted = init (pos 1_700_000_000_000_000_000) 1_000_000_000

monotonic_ns-run_clock_example :
    let (early, c') = monotonic_ns true booted in
    let late = run_clock (advance_call (negsuc 5) ∷ monotonic_target_call (pos 7) ∷ []) c' in
    (early ≤ (monotonic_ns false late).0)
    × (early + tick_ns ≤ (monotonic_ns true late).0)
    × ((realtime_ns false late).0 ≡ +ℤ booted.boot_realtime_ns (pos (monotonic_ns false late).0))
monotonic_ns-run_clock_example =
    monotonic_ns-run_clock true false (advance_call (negsuc 5) ∷ monotonic_target_call (pos 7) ∷ [])
      booted

advance_to_target_example :
    ((monotonic_ns false (advance_to_monotonic (pos 2_000_000_000) booted)).0 ≡ (
      if leb_ℤ (pos (monotonic_ns false booted).0) (pos 2_000_000_000)
      then at_least_zero (pos 2_000_000_000)
      else (monotonic_ns false booted).0))
    × ((realtime_ns false (advance_to_realtime (pos 2_000_000_000) booted)).0 ≡ (
        if leb_ℤ (realtime_ns false booted).0 (pos 2_000_000_000)
        then pos 2_000_000_000
        else (realtime_ns false booted).0))
advance_to_target_example = advance_to_target (pos 2_000_000_000) booted
