-- ===== src/Printf/Alike.antt =====
-- Two ways to walk the arguments of one call, of which each takes a step where the other does.
use emulite.Base.{ℕ, ◌≡◌, refl, Option, some, List, [], ◌∷◌}
use emulite.Guest.{GuestMemory}
use emulite.Printf.{VarArgs, Request, draw, draws}

module _ {g : GuestMemory} (a b : VarArgs g) (R : a.Cursor → b.Cursor → Type 0) (m : g.Memory) where
  -- both get the same value, and their cursors belong together again
  abbrev pub Steps : Option (ℕ × a.Cursor) → Option (ℕ × b.Cursor) → Type 0
  Steps s t =
      (value : ℕ) × (c : a.Cursor) × (d : b.Cursor) × (s ≡ some (value, c))
      × (t ≡ some (value, d))
      × R c d

  abbrev pub Alike : Type 0
  Alike = (r : Request) (c : a.Cursor) (d : b.Cursor) → R c d → Steps (draw a r c m) (draw b r d m)

  -- all requests of a row are answered, and alike
  pub draws-Alike :
      Alike
      → (rs : List Request) (c : a.Cursor) (d : b.Cursor) → R c d
      → (values : List ℕ) × (draws a rs c m ≡ some values) × (draws b rs d m ≡ some values)
  draws-Alike alike [] c d same = ([], refl, refl)
  draws-Alike alike (r ∷ rs) c d same =
      let (value, c', d', one, other, same') = alike r c d same in
      let (values, ones, others) = draws-Alike alike rs c' d' same' in
      (value ∷ values, rw (one, ones, draws) refl, rw (other, others, draws) refl)
