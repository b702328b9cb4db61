-- ===== src/Base/Text.antt =====
-- Texts, by the numbers of their characters: code points, or bytes of UTF-8. Two are compared as Python
-- compares two strings.
use emulite.Base.{ℕ, ◌≡◌, refl, ap, List, [], ◌∷◌, Bool, true, false, ◌&&◌, ◌==◌, arith}

abbrev pub Text : Type 0
Text = List ℕ

abbrev pub same_text : Text → Text → Bool
same_text [] [] = true
same_text (c ∷ s) (d ∷ t) = (c == d) && same_text s t
same_text s t = false

pub same_text_self : (s : Text) → same_text s s ≡ true
same_text_self [] = refl
same_text_self (c ∷ s) = ground (arith, same_text_self s)

pub same_text_eq : (s t : Text) → same_text s t ≡ true → s ≡ t
same_text_eq [] [] h = refl
same_text_eq [] (d ∷ t) h = absurd (ground (arith, h))
same_text_eq (c ∷ s) [] h = absurd (ground (arith, h))
same_text_eq (c ∷ s) (d ∷ t) h =
    let first : c ≡ d = ground (arith, h) in
    rw first (ap (◌∷◌ d) (same_text_eq s t (ground (arith, h))))
