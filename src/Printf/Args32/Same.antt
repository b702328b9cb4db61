-- ===== src/Printf/Args32/Same.antt =====
-- A function that takes its arguments from the registers, and one that takes them from a va_list
-- that was started in it, get the same arguments.
use emulite.Base.{
  ℕ, ◌+◌, ◌*◌, ◌-◌, ◌%◌, ◌^◌, ◌≤◌, ◌<◌, ◌≡◌, refl, ◌∙◌, ap, some, true, false, List, arith,
  lt_cases, inl, inr, ltb, leb,
}
use emulite.Base.Bits.{clear_bits-mask}
use emulite.Guest.{GuestMemory, read_u32, read_u64}
use emulite.Guest.Access.{read_u64_halves}
use emulite.Printf.{Request, narrow, wide, double, draw, draws}
use emulite.Printf.Alike.{Steps, draws-Alike}
use emulite.Printf.Args32.{
  RegisterArgs32, start_args, register_args32, valist_args32, register_integer, register_real,
  as_double, valist_integer, valist_real, align8, even_core, narrow_integer, wide_integer_at,
}

align8_lem : (n : ℕ) → align8 n ≡ n + 7 - (n + 7) % 8
unfolding align8
align8_lem n = clear_bits-mask 3 (n + 7)

even_core_lem : (n : ℕ) → even_core n ≡ n + n % 2
unfolding even_core
even_core_lem n = ground arith

module _ (g : GuestMemory) (r : ℕ → ℕ) (m : g.Memory) where
  -- The core registers from `gp_start` to R3 stand right below the stack pointer of the call,
  -- where the prologue of a variadic function has pushed them.
  pub record IsSaved (gp_start : ℕ) (sp : ℕ) : Type 0 where
    pub room : (16 ≤ sp) × (sp % 8 ≡ 0)
    pub core : (i : ℕ) → gp_start ≤ i → i < 4 → read_u32 g (sp + 4 * i - 16) m ≡ r i

  module _ (gp_start sp : ℕ) (saved : IsSaved gp_start sp) where
    pub record Belong (a : RegisterArgs32) (cursor : ℕ) : Type 0 where
      pub at : cursor + 16 ≡ a.stack + 4 * a.core
      pub stack : a.core < 4 → a.stack ≡ sp
      pub range : (gp_start ≤ a.core) × (a.core ≤ 4) × (16 ≤ a.stack)

    narrow-Steps :
        (a : RegisterArgs32) (c : ℕ)
        → Belong a c
        → Steps
            (register_args32 g r)
            (valist_args32 g)
            Belong
            m
            (register_integer g r false a m)
            (valist_integer g false c m)
    unfolding register_integer valist_integer narrow_integer
    narrow-Steps a c b = elim (lt_cases a.core 4) [
      | inl l ↦
          let below : ltb a.core 4 ≡ true = ground arith in
          let here : c ≡ sp + 4 * a.core - 16 = omega (arith, b.at, b.stack l, saved.room) in
          let value = saved.core a.core b.range.0 l in
          (
            r a.core,
            record a { core = a.core + 1 },
            c + 4,
            rw below refl,
            ap (λ (v : ℕ). some (v, c + 4)) (ap (λ (k : ℕ). read_u32 g k m) here ∙ value),
            record {
              at = omega (arith, b.at);
              stack = λ _. b.stack l;
              range = omega (arith, b.range);
            },
          )
      | inr l ↦
          let above : ltb a.core 4 ≡ false = ground arith in
          let here : c ≡ a.stack = omega (arith, b.at, b.range) in
          (
            read_u32 g a.stack m,
            record a { stack = a.stack + 4 },
            c + 4,
            rw above refl,
            rw here refl,
            record {
              at = omega (arith, b.at);
              stack = λ h. absurd (omega arith);
              range = omega (arith, b.range);
            },
          )
    ]

    wide-Steps :
        (a : RegisterArgs32) (c : ℕ)
        → Belong a c
        → Steps
            (register_args32 g r)
            (valist_args32 g)
            Belong
            m
            (register_integer g r true a m)
            (valist_integer g true c m)
    unfolding register_integer valist_integer wide_integer_at
    wide-Steps a c b =
        let even = even_core_lem a.core in
        let up = align8_lem c in
        let up_stack = align8_lem a.stack in
        elim (lt_cases 4 (even_core a.core + 2)) [
          | inr l ↦
              let fits : leb (even_core a.core + 2) 4 ≡ true = ground arith in
              let here : align8 c ≡ sp + 4 * even_core a.core - 16 =
                omega (arith, b.at, b.stack (omega arith), saved.room) in
              let low = saved.core (even_core a.core) (omega (arith, b.range)) (omega arith) in
              let high = saved.core (even_core a.core + 1) (omega (arith, b.range)) (omega arith) in
              let next : sp + 4 * even_core a.core - 16 + 4 ≡ sp + 4 * (even_core a.core + 1) - 16 =
                omega (arith, saved.room) in
              (
                r (even_core a.core) + r (even_core a.core + 1) * 2 ^ 32,
                record a { core = even_core a.core + 2 },
                align8 c + 8,
                rw fits refl,
                ap (λ (v : ℕ). some (v, align8 c + 8))
                    (ap (λ (k : ℕ). read_u64 g k m) here
                      ∙ read_u64_halves g (sp + 4 * even_core a.core - 16) m
                      ∙ rw (next, low, high) refl),
                record {
                  at = omega (arith, here, b.stack (omega arith), saved.room);
                  stack = λ _. b.stack (omega arith);
                  range = omega (arith, b.range);
                },
              )
          | inl l ↦
              let over : leb (even_core a.core + 2) 4 ≡ false = ground arith in
              let here : align8 c ≡ align8 a.stack = elim (lt_cases a.core 4) [
                | inl k ↦ omega (arith, b.at, b.stack k, saved.room)
                | inr k ↦ omega (arith, b.at, b.range)
              ] in
              (
                read_u64 g (align8 a.stack) m,
                record { core = 4; stack = align8 a.stack + 8 },
                align8 c + 8,
                rw over refl,
                rw here refl,
                record {
                  at = omega (arith, here);
                  stack = λ h. absurd (omega arith);
                  range = omega (arith, b.range);
                },
              )
        ]

    real-Steps :
        (a : RegisterArgs32) (c : ℕ)
        → Belong a c
        → Steps
            (register_args32 g r)
            (valist_args32 g)
            Belong
            m
            (register_real g r a m)
            (valist_real g c m)
    unfolding register_real valist_real
    real-Steps a c b =
        let (value, a', c', one, other, b') = wide-Steps a c b in
        (value % 2 ^ 64, a', c', ap as_double one, ap as_double other, b')

    pub any-Steps :
        (q : Request) (a : RegisterArgs32) (c : ℕ)
        → Belong a c
        → Steps
            (register_args32 g r)
            (valist_args32 g)
            Belong
            m
            (draw (register_args32 g r) q a m)
            (draw (valist_args32 g) q c m)
    any-Steps narrow = narrow-Steps
    any-Steps wide = wide-Steps
    any-Steps double = real-Steps

    pub start_args-Belong :
        (a : RegisterArgs32) → start_args gp_start sp ≡ some a → Belong a (sp + 4 * gp_start - 16)
    unfolding start_args
    start_args-Belong a e = record {
      at = ground (arith, saved.room);
      stack = λ _. ground arith;
      range = ground (arith, saved.room);
    }

  -- Let a variadic function have `gp_start` words of named arguments and the other core registers
  -- pushed right below the stack pointer of the call, a multiple of 8, and let the va_list be the
  -- address of the first of them. Then any row of requests gets the same values from the registers
  -- and the stack as from the va_list, and each gets one.
  pub valist_args32-register_args32 :
      (gp_start sp : ℕ) (a : RegisterArgs32) (qs : List Request)
      → IsSaved gp_start sp
      → start_args gp_start sp ≡ some a
      → (values : List ℕ) × (draws (register_args32 g r) qs a m ≡ some values)
        × (draws (valist_args32 g) qs (sp + 4 * gp_start - 16) m ≡ some values)
  valist_args32-register_args32 gp_start sp a qs saved e =
      draws-Alike (register_args32 g r) (valist_args32 g) (Belong gp_start sp saved) m
        (any-Steps gp_start sp saved) qs a (sp + 4 * gp_start - 16)
        (start_args-Belong gp_start sp saved a e)
