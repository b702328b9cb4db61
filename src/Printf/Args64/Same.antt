-- ===== src/Printf/Args64/Same.antt =====
-- A function that takes its arguments from the registers, and one that takes them from a va_list
-- that was started in it, get the same arguments.
use emulite.Base.{
  ℕ, ◌+◌, ◌*◌, ◌-◌, ◌%◌, ◌^◌, ◌≤◌, ◌<◌, ◌≡◌, refl, ◌∙◌, some, true, false, List, Bool, arith,
  lt_cases, inl, inr, ltb,
}
use emulite.Base.Int.{pos, negsuc, sub_ℕ, offset_by, +ℤ}
use emulite.Guest.{GuestMemory, read_u64}
use emulite.Printf.{Request, narrow, wide, double, draw, draws}
use emulite.Printf.Alike.{Steps, draws-Alike}
use emulite.Printf.Args64.{
  RegisterArgs64, VaListArgs64, start_args, register_args64, valist_args64, register_integer,
  register_real, valist_integer, valist_real, valist_integer_at, valist_real_at, read_offset,
}

-- the va_list that `va_start` makes
abbrev pub started : ℕ → ℕ → ℕ → ℕ → VaListArgs64
started gp_start sp gr_top vr_top = record {
  stack = sp;
  gr_top = gr_top;
  vr_top = vr_top;
  gr = sub_ℕ (8 * gp_start) 64;
  vr = sub_ℕ 0 128;
}

module _ (g : GuestMemory) (x q : ℕ → ℕ) (m : g.Memory) where
  -- The save areas of a variadic function, as its prologue leaves them: the registers X from
  -- `gp_start` to X7 end below `gr_top`, the low halves of Q0 to Q7, 16 bytes each, below `vr_top`.
  pub record IsSaved (gp_start : ℕ) (gr_top : ℕ) (vr_top : ℕ) : Type 0 where
    pub room : (64 ≤ gr_top) × (128 ≤ vr_top)
    pub general : (i : ℕ) → gp_start ≤ i → i < 8 → read_u64 g (gr_top + 8 * i - 64) m ≡ x i
    pub vector : (i : ℕ) → i < 8 → read_u64 g (vr_top + 16 * i - 128) m ≡ q i % 2 ^ 64

  module _ (gp_start gr_top vr_top : ℕ) (saved : IsSaved gp_start gr_top vr_top) where
    pub record Belong (a : RegisterArgs64) (v : VaListArgs64) : Type 0 where
      pub stack : v.stack ≡ a.stack
      pub tops : (v.gr_top ≡ gr_top) × (v.vr_top ≡ vr_top)
      pub gr : v.gr ≡ sub_ℕ (8 * a.gp) 64
      pub vr : v.vr ≡ sub_ℕ (16 * a.fp) 128
      pub range : (gp_start ≤ a.gp) × (a.gp ≤ 8) × (a.fp ≤ 8)

    integer-Steps :
        (w : Bool) (a : RegisterArgs64) (v : VaListArgs64)
        → Belong a v
        → Steps
            (register_args64 g x q)
            (valist_args64 g)
            Belong
            m
            (register_integer g x q w a m)
            (valist_integer g w v m)
    unfolding register_integer valist_integer valist_integer_at
    integer-Steps w a v b = elim (lt_cases a.gp 8) [
      | inl l ↦
          let below : ltb a.gp 8 ≡ true = ground arith in
          let negative : v.gr ≡ negsuc (63 - 8 * a.gp) = b.gr ∙ ground arith in
          let here : offset_by v.gr_top (negsuc (63 - 8 * a.gp)) ≡ pos (gr_top + 8 * a.gp - 64) =
            ground (arith, b.tops.0, saved.room.0) in
          let next : +ℤ (negsuc (63 - 8 * a.gp)) (pos 8) ≡ sub_ℕ (8 * (a.gp + 1)) 64 =
            ground arith in
          let value = saved.general a.gp b.range.0 l in
          (
            x a.gp,
            record a { gp = a.gp + 1 },
            record v { gr = +ℤ (negsuc (63 - 8 * a.gp)) (pos 8) },
            rw below refl,
            rw (negative, valist_integer_at) (rw (here, read_offset) (rw value refl)),
            record {
              stack = b.stack;
              tops = b.tops;
              gr = next;
              vr = b.vr;
              range = omega (arith, b.range);
            },
          )
      | inr l ↦
          let above : ltb a.gp 8 ≡ false = ground arith in
          let spent : v.gr ≡ pos (8 * a.gp - 64) = b.gr ∙ ground arith in
          (
            read_u64 g a.stack m,
            record a { stack = a.stack + 8 },
            record v { stack = v.stack + 8 },
            rw above refl,
            rw (spent, valist_integer_at) (rw b.stack refl),
            record {
              stack = omega (arith, b.stack);
              tops = b.tops;
              gr = b.gr;
              vr = b.vr;
              range = b.range;
            },
          )
    ]

    real-Steps :
        (a : RegisterArgs64) (v : VaListArgs64)
        → Belong a v
        → Steps
            (register_args64 g x q)
            (valist_args64 g)
            Belong
            m
            (register_real g x q a m)
            (valist_real g v m)
    unfolding register_real valist_real valist_real_at
    real-Steps a v b = elim (lt_cases a.fp 8) [
      | inl l ↦
          let below : ltb a.fp 8 ≡ true = ground arith in
          let negative : v.vr ≡ negsuc (127 - 16 * a.fp) = b.vr ∙ ground arith in
          let here : offset_by v.vr_top (negsuc (127 - 16 * a.fp))
              ≡ pos (vr_top + 16 * a.fp - 128) =
            ground (arith, b.tops.1, saved.room.1) in
          let next : +ℤ (negsuc (127 - 16 * a.fp)) (pos 16) ≡ sub_ℕ (16 * (a.fp + 1)) 128 =
            ground arith in
          let value = saved.vector a.fp l in
          let short : q a.fp % 2 ^ 64 % 2 ^ 64 ≡ q a.fp % 2 ^ 64 = omega arith in
          (
            q a.fp % 2 ^ 64,
            record a { fp = a.fp + 1 },
            record v { vr = +ℤ (negsuc (127 - 16 * a.fp)) (pos 16) },
            rw below refl,
            rw (negative, valist_real_at) (rw (here, read_offset) (rw (value, short) refl)),
            record {
              stack = b.stack;
              tops = b.tops;
              gr = b.gr;
              vr = next;
              range = omega (arith, b.range);
            },
          )
      | inr l ↦
          let above : ltb a.fp 8 ≡ false = ground arith in
          let spent : v.vr ≡ pos (16 * a.fp - 128) = b.vr ∙ ground arith in
          (
            read_u64 g a.stack m % 2 ^ 64,
            record a { stack = a.stack + 8 },
            record v { stack = v.stack + 8 },
            rw above refl,
            rw (spent, valist_real_at) (rw b.stack refl),
            record {
              stack = omega (arith, b.stack);
              tops = b.tops;
              gr = b.gr;
              vr = b.vr;
              range = b.range;
            },
          )
    ]

    pub any-Steps :
        (r : Request) (a : RegisterArgs64) (v : VaListArgs64)
        → Belong a v
        → Steps
            (register_args64 g x q)
            (valist_args64 g)
            Belong
            m
            (draw (register_args64 g x q) r a m)
            (draw (valist_args64 g) r v m)
    any-Steps narrow = integer-Steps false
    any-Steps wide = integer-Steps true
    any-Steps double = real-Steps

    pub start_args-Belong :
        (sp : ℕ) (a : RegisterArgs64)
        → start_args gp_start sp ≡ some a
        → Belong a (started gp_start sp gr_top vr_top)
    unfolding start_args
    start_args-Belong sp a e = record {
      stack = ground arith;
      tops = (refl, refl);
      gr = ground arith;
      vr = ground arith;
      range = ground arith;
    }

  -- Let a variadic function have `gp_start` named arguments and its save areas filled, and let
  -- `valist` be what `va_start` makes there: the stack pointer, the ends of the save areas, and
  -- the offsets of the first registers below them. Then any row of requests gets the same values
  -- from the registers and the stack as from the va_list, and each gets one.
  pub valist_args64-register_args64 :
      (gp_start sp gr_top vr_top : ℕ) (a : RegisterArgs64) (rs : List Request)
      → IsSaved gp_start gr_top vr_top
      → start_args gp_start sp ≡ some a
      → (values : List ℕ) × (draws (register_args64 g x q) rs a m ≡ some values)
        × (draws (valist_args64 g) rs (started gp_start sp gr_top vr_top) m ≡ some values)
  valist_args64-register_args64 gp_start sp gr_top vr_top a rs saved e =
      draws-Alike (register_args64 g x q) (valist_args64 g) (Belong gp_start gr_top vr_top saved) m
        (any-Steps gp_start gr_top vr_top saved) rs a (started gp_start sp gr_top vr_top)
        (start_args-Belong gp_start gr_top vr_top saved sp a e)
