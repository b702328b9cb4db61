-- ===== src/Base/Elems.antt =====
-- Lists read one place at a time.
use emulite.Base.{
  ℕ, zero, suc, ◌+◌, ◌-◌, ◌≤◌, ◌≡◌, refl, ap, ◌∙◌, none, some, List, [], ◌∷◌, ◌++◌, take, drop,
  replicate, length, get_elem?, ltb, if◌then◌else◌, arith,
}

pub get-append :
    (i : ℕ) (xs ys : List ℕ)
    → get_elem? (xs ++ ys) i
      ≡ (if ltb i (length xs) then get_elem? xs i else get_elem? ys (i - length xs))
get-append i [] ys = ground arith
get-append zero (x ∷ xs) ys = ground arith
get-append (suc i) (x ∷ xs) ys = ground (arith, get-append i xs ys)

pub get-take :
    (i n : ℕ) (xs : List ℕ) → get_elem? (take n xs) i ≡ (if ltb i n then get_elem? xs i else none)
get-take i zero xs = ground arith
get-take i (suc n) [] = ground arith
get-take zero (suc n) (x ∷ xs) = ground arith
get-take (suc i) (suc n) (x ∷ xs) = ground (arith, get-take i n xs)

pub get-drop : (i n : ℕ) (xs : List ℕ) → get_elem? (drop n xs) i ≡ get_elem? xs (n + i)
get-drop i zero xs = ap (λ (t : ℕ). get_elem? xs t) (omega arith)
get-drop i (suc n) [] = refl
get-drop i (suc n) (x ∷ xs) =
    let same : suc (n + i) ≡ suc n + i = omega arith in
    get-drop i n xs ∙ ap (λ (t : ℕ). get_elem? (x ∷ xs) t) same

pub get-zeros : (i n : ℕ) → get_elem? (replicate n zero) i ≡ (if ltb i n then some zero else none)
get-zeros i zero = ground arith
get-zeros zero (suc n) = ground arith
get-zeros (suc i) (suc n) = ground (arith, get-zeros i n)

pub get_past : (i : ℕ) (xs : List ℕ) → length xs ≤ i → get_elem? xs i ≡ none
get_past i [] h = refl
get_past zero (x ∷ xs) h = absurd (omega arith)
get_past (suc i) (x ∷ xs) h = get_past i xs (omega arith)

-- two lists that agree at every place
pub get_ext : (xs ys : List ℕ) → ((i : ℕ) → get_elem? xs i ≡ get_elem? ys i) → xs ≡ ys
get_ext [] [] h = refl
get_ext [] (y ∷ ys) h = absurd (ground (arith, h 0))
get_ext (x ∷ xs) [] h = absurd (ground (arith, h 0))
get_ext (x ∷ xs) (y ∷ ys) h =
    let first : x ≡ y = ground (arith, h 0) in
    rw first (ap (◌∷◌ y) (get_ext xs ys (λ (i : ℕ). h (suc i))))
