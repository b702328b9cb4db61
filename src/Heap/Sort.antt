-- ===== src/Heap/Sort.antt =====
-- `sorted(d)`: the keys of a dict in ascending order.
use emulite.Base.{ℕ, List, [], ◌∷◌, leb, if◌then◌else◌}
use emulite.Base.Dict.{Dict}

unfoldable pub insort : ℕ → List ℕ → List ℕ
insort k [] = k ∷ []
insort k (j ∷ l) = if leb k j then k ∷ j ∷ l else j ∷ insort k l

unfoldable pub sorted : Dict ℕ → List ℕ
unfolding insort
sorted [] = []
sorted ((k, _) ∷ d) = insort k (sorted d)
