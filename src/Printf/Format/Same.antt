-- ===== src/Printf/Format/Same.antt =====
-- `printf` and `vprintf` of one call print the same.
use emulite.Base.{ℕ, ◌+◌, ◌*◌, ◌-◌, ◌≡◌, refl, Bool, Option, some, List}
use emulite.Base.Int.{ℤ}
use emulite.Guest.{GuestMemory}
use emulite.Printf.Args64.{RegisterArgs64, VaListArgs64, register_args64, valist_args64}
use emulite.Printf.Args32.{RegisterArgs32, register_args32, valist_args32}
use emulite.Printf.Args64 as A64
use emulite.Printf.Args32 as A32
use emulite.Printf.Args64.Same as Same64
use emulite.Printf.Args32.Same as Same32
use emulite.Printf.Spec.{pieces}
use emulite.Printf.Format.{format}
use emulite.Printf.Format.Alike.{NoCount, format-Alike}

module _ (g : GuestMemory) (m : g.Memory) (pointer_size : ℕ) (mapped : ℕ → Bool)
    (decode : List ℕ → List ℕ) (integer_text : ℕ → List ℕ → Option ℕ → Option ℕ → ℤ → List ℕ)
    (real_text : ℕ → List ℕ → Option ℕ → Option ℕ → ℕ → List ℕ) (fmt : List ℕ) where
  -- Of a variadic AArch64 call whose prologue has filled the save areas, a format without `%n`
  -- gives one text, whether the arguments come from the registers and the stack or from the
  -- va_list that `va_start` makes; no exception is raised and memory is left alone.
  pub format-valist_args64 :
      (x q : ℕ → ℕ) (gp_start sp gr_top vr_top : ℕ) (a : RegisterArgs64)
      → NoCount (pieces fmt)
      → Same64.IsSaved g x q m gp_start gr_top vr_top
      → A64.start_args gp_start sp ≡ some a
      → (text : List ℕ) × (a' : RegisterArgs64) × (v' : VaListArgs64) × (format
            (register_args64 g x q)
            pointer_size
            mapped
            decode
            integer_text
            real_text
            fmt
            a
            m
          ≡ some (text, a', m))
        × (format
              (valist_args64 g)
              pointer_size
              mapped
              decode
              integer_text
              real_text
              fmt
              (Same64.started gp_start sp gr_top vr_top)
              m
            ≡ some (text, v', m))
  format-valist_args64 x q gp_start sp gr_top vr_top a none_counts saved e =
      format-Alike (register_args64 g x q) (valist_args64 g)
        (Same64.Belong g x q m gp_start gr_top vr_top saved) m
        (Same64.any-Steps g x q m gp_start gr_top vr_top saved) (λ l. refl) pointer_size mapped
        decode integer_text real_text fmt a (Same64.started gp_start sp gr_top vr_top) none_counts
        (Same64.start_args-Belong g x q m gp_start gr_top vr_top saved sp a e)

  -- Of a variadic AArch32 call whose prologue has pushed the core registers that hold no named
  -- argument right below the stack pointer, a multiple of 8, a format without `%n` gives one text,
  -- whether the arguments come from the registers and the stack or from the va_list that points to
  -- the first of those registers; no exception is raised and memory is left alone.
  pub format-valist_args32 :
      (r : ℕ → ℕ) (gp_start sp : ℕ) (a : RegisterArgs32)
      → NoCount (pieces fmt)
      → Same32.IsSaved g r m gp_start sp
      → A32.start_args gp_start sp ≡ some a
      → (text : List ℕ) × (a' : RegisterArgs32) × (cursor : ℕ) × (format
            (register_args32 g r)
            pointer_size
            mapped
            decode
            integer_text
            real_text
            fmt
            a
            m
          ≡ some (text, a', m))
        × (format
              (valist_args32 g)
              pointer_size
              mapped
              decode
              integer_text
              real_text
              fmt
              (sp + 4 * gp_start - 16)
              m
            ≡ some (text, cursor, m))
  format-valist_args32 r gp_start sp a none_counts saved e =
      format-Alike (register_args32 g r) (valist_args32 g) (Same32.Belong g r m gp_start sp saved) m
        (Same32.any-Steps g r m gp_start sp saved) (λ l. refl) pointer_size mapped decode
        integer_text real_text fmt a (sp + 4 * gp_start - 16) none_counts
        (Same32.start_args-Belong g r m gp_start sp saved a e)
