-- ===== src/SvcTrap/Places.antt =====
-- Lists of slots, read one place at a time.
use emulite.Base.{
  ℕ, zero, suc, ◌<◌, ◌≡◌, refl, ap, Option, none, some, List, [], ◌∷◌, ◌++◌, length, get_elem?,
  ◌==◌, if◌then◌else◌, arith,
}
use emulite.SvcTrap.{set}

pub get-set :
    (l : List (Option ℕ)) (i j : ℕ) (v : Option ℕ)
    → i < length l
    → get_elem? (set l i v) j ≡ (if j == i then some v else get_elem? l j)
unfolding set
get-set [] i j v h = absurd (omega arith)
get-set (x ∷ l) zero zero v h = refl
get-set (x ∷ l) zero (suc j) v h = ground arith
get-set (x ∷ l) (suc i) zero v h = ground arith
get-set (x ∷ l) (suc i) (suc j) v h = ground (arith, get-set l i j v)

pub length-set : (l : List (Option ℕ)) (i : ℕ) (v : Option ℕ) → length (set l i v) ≡ length l
unfolding set
length-set [] i v = refl
length-set (x ∷ l) zero v = refl
length-set (x ∷ l) (suc i) v = ap suc (length-set l i v)

pub get-last :
    (l : List (Option ℕ)) (j : ℕ) (v : Option ℕ)
    → get_elem? (l ++ v ∷ []) j ≡ (if j == length l then some v else get_elem? l j)
get-last [] zero v = refl
get-last [] (suc j) v = ground arith
get-last (x ∷ l) zero v = ground arith
get-last (x ∷ l) (suc j) v = ground (arith, get-last l j v)

pub get_inside :
    (l : List (Option ℕ)) (i : ℕ) (v : Option ℕ) → get_elem? l i ≡ some v → i < length l
get_inside [] i v e = absurd (ground arith)
get_inside (x ∷ l) zero v e = omega arith
get_inside (x ∷ l) (suc i) v e = omega (arith, get_inside l i v e)

pub get_end : (l : List (Option ℕ)) → get_elem? l (length l) ≡ none
get_end [] = refl
get_end (x ∷ l) = get_end l

pub get_below :
    (l : List (Option ℕ)) (i : ℕ) → i < length l → (v : Option ℕ) × (get_elem? l i ≡ some v)
get_below [] i h = absurd (omega arith)
get_below (x ∷ l) zero h = (x, refl)
get_below (x ∷ l) (suc i) h = get_below l i (omega arith)
