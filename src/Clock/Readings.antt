-- ===== src/Clock/Readings.antt =====
-- What the readings of a clock tell, whatever is slept in between.
use emulite.Base.{
  ℕ, ◌+◌, ◌≤◌, ◌≡◌, refl, ap, ◌∙◌, Bool, true, false, List, [], ◌∷◌, arith, if◌then◌else◌,
}
use emulite.Base.Int.{ℤ, pos, negsuc, +ℤ, -ℤ, leb_ℤ}
use emulite.Clock.{
  VirtualClock, monotonic_ns, realtime_ns, advance, advance_to_realtime, advance_to_monotonic,
  uptime_s, at_least_zero, tick_ns,
}

pub data Call : Type 0 where
  monotonic_call : Bool → Call
  realtime_call : Bool → Call
  uptime_call : Call
  advance_call : ℤ → Call
  realtime_target_call : ℤ → Call
  monotonic_target_call : ℤ → Call

unfoldable pub after : Call → VirtualClock → VirtualClock
after (monotonic_call a) c = (monotonic_ns a c).1
after (realtime_call a) c = (realtime_ns a c).1
after uptime_call c = (uptime_s c).1
after (advance_call n) c = advance n c
after (realtime_target_call n) c = advance_to_realtime n c
after (monotonic_target_call n) c = advance_to_monotonic n c

unfoldable pub run_clock : List Call → VirtualClock → VirtualClock
run_clock [] c = c
run_clock (x ∷ xs) c = run_clock xs (after x c)

-- a reading is the uptime at boot and what has elapsed since, and leaves the realtime base
monotonic_ns-now :
    (how : Bool) (c : VirtualClock)
    → let (now, c') = monotonic_ns how c in
      (now ≡ c'.boot_uptime_ns + c'.elapsed_ns) × (c'.boot_realtime_ns ≡ c.boot_realtime_ns)
unfolding monotonic_ns
monotonic_ns-now true c = (refl, refl)
monotonic_ns-now false c = (refl, refl)

monotonic_ns_idle : (c : VirtualClock) → (monotonic_ns false c).0 ≡ c.boot_uptime_ns + c.elapsed_ns
unfolding monotonic_ns
monotonic_ns_idle c = refl

monotonic_ns_ticks :
    (c : VirtualClock) → (monotonic_ns true c).0 ≡ c.boot_uptime_ns + c.elapsed_ns + tick_ns
unfolding monotonic_ns
monotonic_ns_ticks c = omega arith

-- the clock goes on, from the same start
record Later (c c' : VirtualClock) : Type 0 where
  realtime : c'.boot_realtime_ns ≡ c.boot_realtime_ns
  uptime : c'.boot_uptime_ns ≡ c.boot_uptime_ns
  elapsed : c.elapsed_ns ≤ c'.elapsed_ns

after-Later : (x : Call) (c : VirtualClock) → Later c (after x c)
unfolding after monotonic_ns realtime_ns uptime_s advance advance_to_realtime advance_to_monotonic
after-Later (monotonic_call true) c = record {
  realtime = refl;
  uptime = refl;
  elapsed = omega arith;
}
after-Later (monotonic_call false) c = record {
  realtime = refl;
  uptime = refl;
  elapsed = omega arith;
}
after-Later (realtime_call true) c = record {
  realtime = refl;
  uptime = refl;
  elapsed = omega arith;
}
after-Later (realtime_call false) c = record {
  realtime = refl;
  uptime = refl;
  elapsed = omega arith;
}
after-Later uptime_call c = record { realtime = refl; uptime = refl; elapsed = omega arith }
after-Later (advance_call n) c = record { realtime = refl; uptime = refl; elapsed = omega arith }
after-Later (realtime_target_call n) c = record {
  realtime = refl;
  uptime = refl;
  elapsed = omega arith;
}
after-Later (monotonic_target_call n) c = record {
  realtime = refl;
  uptime = refl;
  elapsed = omega arith;
}

run_clock-Later : (xs : List Call) (c : VirtualClock) → Later c (run_clock xs c)
unfolding run_clock
run_clock-Later [] c = record { realtime = refl; uptime = refl; elapsed = omega arith }
run_clock-Later (x ∷ xs) c =
    let first = after-Later x c in
    let rest = run_clock-Later xs (after x c) in
    record {
      realtime = rest.realtime ∙ first.realtime;
      uptime = rest.uptime ∙ first.uptime;
      elapsed = omega (arith, rest.elapsed, first.elapsed);
    }

-- A reading of the monotonic clock, with or without `advance`, is at most any later one without
-- `advance`, and smaller, by a tick at least, than any later one with it, whatever was read,
-- advanced or waited for in between, waits for a time that is past included; and the realtime
-- clock, read either way, stays at the same distance from it.
pub monotonic_ns-run_clock :
    (how how' : Bool) (xs : List Call) (c : VirtualClock)
    → let (early, c') = monotonic_ns how c in
      let late = run_clock xs c' in
      (early ≤ (monotonic_ns false late).0)
      × (early + tick_ns ≤ (monotonic_ns true late).0)
      × ((realtime_ns how' late).0 ≡ +ℤ c.boot_realtime_ns (pos (monotonic_ns how' late).0))
unfolding realtime_ns
monotonic_ns-run_clock how how' xs c =
    let now = monotonic_ns-now how c in
    let l = run_clock-Later xs (monotonic_ns how c).1 in
    let late = run_clock xs (monotonic_ns how c).1 in
    (
      omega (arith, now.0, l.uptime, l.elapsed, monotonic_ns_idle late),
      omega (arith, now.0, l.uptime, l.elapsed, monotonic_ns_ticks late),
      ap (λ (base : ℤ). +ℤ base (pos (monotonic_ns how' late).0)) (l.realtime ∙ now.1),
    )

-- a clock that reads the base and some time more, and is moved on to a target
catch_up :
    (base target : ℤ) (up elapsed : ℕ)
    → let now = +ℤ base (pos (up + elapsed)) in
      +ℤ base (pos (up + (elapsed + at_least_zero (-ℤ target now))))
      ≡ (if leb_ℤ now target then target else now)
catch_up (pos b) (pos t) up elapsed = ground arith
catch_up (pos b) (negsuc t) up elapsed = ground arith
catch_up (negsuc b) (pos t) up elapsed = ground arith
catch_up (negsuc b) (negsuc t) up elapsed = ground arith

catch_up_pos :
    (target : ℤ) (up elapsed : ℕ)
    → let now = up + elapsed in
      up + (elapsed + at_least_zero (-ℤ target (pos now)))
      ≡ (if leb_ℤ (pos now) target then at_least_zero target else now)
catch_up_pos (pos t) up elapsed = ground arith
catch_up_pos (negsuc t) up elapsed = ground arith

-- `advance_to_monotonic` and `advance_to_realtime` bring their clock to the target exactly where
-- the target is still to come, and change nothing where it is past.
pub advance_to_target :
    (target : ℤ) (c : VirtualClock)
    → ((monotonic_ns false (advance_to_monotonic target c)).0 ≡ (
        if leb_ℤ (pos (monotonic_ns false c).0) target
        then at_least_zero target
        else (monotonic_ns false c).0))
      × ((realtime_ns false (advance_to_realtime target c)).0
          ≡ (if leb_ℤ (realtime_ns false c).0 target then target else (realtime_ns false c).0))
unfolding monotonic_ns realtime_ns advance_to_monotonic advance_to_realtime advance
advance_to_target target c = (
  catch_up_pos target c.boot_uptime_ns c.elapsed_ns,
  catch_up c.boot_realtime_ns target c.boot_uptime_ns c.elapsed_ns,
)
