-- ===== src/Printf.antt =====
-- src/emulite/android/cformat: walking the variadic arguments of a call, and printf's formatting.
pub mod Alike
pub mod Args64
pub mod Args32
pub mod Numbers
pub mod Spec
pub mod Format
mod Tests
use emulite.Base.{ℕ, Bool, true, false, Option, none, some, List, [], ◌∷◌}
use emulite.Guest.{GuestMemory}

-- a length modifier, or none
pub data Length : Type 0 where
  no_length hh_length h_length l_length ll_length q_length z_length j_length t_length : Length

-- What the formatting asks of its subclasses: `_WIDE_LENGTHS`, and `integer(wide)` and
-- `real()`, each of which moves a cursor. A float stands for itself by the bits of its double, and `none` for an exception.
pub record VarArgs (g : GuestMemory) : Type 1 where
  pub Cursor : Type 0
  pub is_wide : Length → Bool
  pub integer : Bool → Cursor → g.Memory → Option (ℕ × Cursor)
  pub real : Cursor → g.Memory → Option (ℕ × Cursor)

pub data Request : Type 0 where
  narrow wide double : Request

module _ {g : GuestMemory} (args : VarArgs g) where
  abbrev pub draw : Request → args.Cursor → g.Memory → Option (ℕ × args.Cursor)
  draw narrow c m = args.integer false c m
  draw wide c m = args.integer true c m
  draw double c m = args.real c m

  -- the values that a row of requests gets
  abbrev pub draws : List Request → args.Cursor → g.Memory → Option (List ℕ)
  draws [] c m = some []
  draws (r ∷ rs) c m = elim (draw r c m) [
    | none ↦ none
    | some (value, c') ↦ elim (draws rs c' m) [ none ↦ none | some values ↦ some (value ∷ values) ]
  ]
