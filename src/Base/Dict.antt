-- ===== src/Base/Dict.antt =====
-- A Python dict keyed by numbers: its items in insertion order.
use Prim.Native.Nat.{ℕ, suc}
use mathlib.Core.Path.{◌≡◌, refl}
use mathlib.Core.Logic.{◌≢◌}
use mathlib.Core.Bool.{Bool, true, false}
use mathlib.Core.Option.{Option, none, some}
use mathlib.Core.List.{List, [], ◌∷◌}
use native.Mathlib.Omega.{arith}
use emulite.Base.Tests.{◌==◌, if◌then◌else◌}
use emulite.Base.Lists.{length}

abbrev pub Dict {ℓ} : Type ℓ → Type ℓ
Dict V = List (ℕ × V)

module _ {ℓ} {V : Type ℓ} where
  -- d.pop(key, None)
  abbrev pub erase : ℕ → Dict V → Dict V
  erase key ((first, value) ∷ rest) = if first == key then rest else (first, value) ∷ erase key rest
  erase key [] = []

  -- d.get(key)
  abbrev pub lookup : ℕ → Dict V → Option V
  lookup key ((first, value) ∷ rest) = if first == key then some value else lookup key rest
  lookup key [] = none

  -- d[key] = new: in place, or at the end
  abbrev pub insert : ℕ → V → Dict V → Dict V
  insert key new ((first, old) ∷ rest) =
      if first == key then (key, new) ∷ rest else (first, old) ∷ insert key new rest
  insert key new [] = (key, new) ∷ []

  -- key in d
  abbrev pub contains : ℕ → Dict V → Bool
  contains key d = elim (lookup key d) [ none ↦ false | some _ ↦ true ]

  pub lookup-insert :
      (k j : ℕ) (v : V) (d : Dict V)
      → lookup j (insert k v d) ≡ (if k == j then some v else lookup j d)
  lookup-insert k j v [] = refl
  lookup-insert k j v (_ ∷ d) = ground (arith, lookup-insert k j v d)

  pub lookup-erase_ne : (k j : ℕ) (d : Dict V) → k ≢ j → lookup j (erase k d) ≡ lookup j d
  lookup-erase_ne k j [] h = refl
  lookup-erase_ne k j (_ ∷ d) h = ground (arith, lookup-erase_ne k j d h)

  pub length-erase :
      (k : ℕ) (v : V) (d : Dict V) → lookup k d ≡ some v → suc (length (erase k d)) ≡ length d
  length-erase k v [] h = absurd (ground arith)
  length-erase k v ((i, w) ∷ d) h = ground (arith, length-erase k v d)
