-- ===== src/Base/Keyed.antt =====
-- Dicts whose keys are all different, as the keys of a Python dict are.
use emulite.Base.{
  ℕ, ◌≡◌, ◌≢◌, refl, sym, ◌∙◌, ◌⊎◌, eq_cases, none, some, [], ◌∷◌, arith, ◌==◌, Bool-cases, inl,
  inr, if◌then◌else◌,
}
use mathlib.Core.Path.{subst}
use mathlib.Core.Option.{some-injective, none-ne-some}
use emulite.Base.Dict.{Dict, lookup, insert, erase, lookup-insert, lookup-erase_ne}

-- no key stands twice
abbrev pub IsKeyed : {V : Type 0} → Dict V → Type 0
IsKeyed [] = Unit
IsKeyed ((k, _) ∷ d) = (lookup k d ≡ none) × IsKeyed d

module _ {V : Type 0} where
  pub lookup-erase_self : (k : ℕ) (d : Dict V) → IsKeyed d → lookup k (erase k d) ≡ none
  lookup-erase_self k [] u = refl
  lookup-erase_self k ((j, c) ∷ d) u = ground (arith, u.0, lookup-erase_self k d u.1)

  pub lookup-erase :
      (k j : ℕ) (d : Dict V)
      → IsKeyed d
      → lookup j (erase k d) ≡ (if k == j then none else lookup j d)
  lookup-erase k j [] u = ground arith
  lookup-erase k j ((i, c) ∷ d) u = ground (arith, u.0, lookup-erase k j d u.1)

  pub lookup-insert_ne :
      (k j : ℕ) (v : V) (d : Dict V) → k ≢ j → lookup j (insert k v d) ≡ lookup j d
  lookup-insert_ne k j v d n = ground (arith, lookup-insert k j v d)

  pub insert-IsKeyed : (k : ℕ) (v : V) (d : Dict V) → IsKeyed d → IsKeyed (insert k v d)
  insert-IsKeyed k v [] u = (refl, tt)
  insert-IsKeyed k v ((j, c) ∷ d) u = elim (Bool-cases (j == k)) [
    | inl s ↦ let same : j ≡ k = ground arith in rw (s, insert) (rw (← same) (u.0), u.1)
    | inr s ↦
        rw (s, insert) (ground (arith, u.0, lookup-insert_ne k j v d), insert-IsKeyed k v d u.1)
  ]

  erase_absent : (k j : ℕ) (d : Dict V) → lookup j d ≡ none → lookup j (erase k d) ≡ none
  erase_absent k j [] e = refl
  erase_absent k j ((i, c) ∷ d) e = ground (arith, erase_absent k j d)

  pub erase-IsKeyed : (k : ℕ) (d : Dict V) → IsKeyed d → IsKeyed (erase k d)
  erase-IsKeyed k [] u = tt
  erase-IsKeyed k ((j, c) ∷ d) u = elim (Bool-cases (j == k)) [
    | inl s ↦ rw (s, erase) (u.1)
    | inr s ↦ rw (s, erase) (erase_absent k j d u.0, erase-IsKeyed k d u.1)
  ]

  pub lookup-insert_self : (k : ℕ) (v : V) (d : Dict V) → lookup k (insert k v d) ≡ some v
  lookup-insert_self k v d = ground (arith, lookup-insert k k v d)

  -- where an entry of the dict comes from, after an insertion and after a deletion
  pub lookup-insert_cases :
      (k j : ℕ) (v w : V) (d : Dict V)
      → lookup j (insert k v d) ≡ some w
      → ((k ≡ j) × (v ≡ w)) ⊎ ((k ≢ j) × (lookup j d ≡ some w))
  lookup-insert_cases k j v w d e = elim (eq_cases k j) [
    | inl same ↦ inl (
      same,
      some-injective v w (
          sym (lookup-insert_self k v d)
          ∙ subst (λ (i : ℕ). lookup i (insert k v d) ≡ some w) (sym same) e),
    )
    | inr other ↦ inr (other, sym (lookup-insert_ne k j v d other) ∙ e)
  ]

  pub lookup-erase_cases :
      (k j : ℕ) (w : V) (d : Dict V)
      → IsKeyed d
      → lookup j (erase k d) ≡ some w
      → (k ≢ j) × (lookup j d ≡ some w)
  lookup-erase_cases k j w d u e = elim (eq_cases k j) [
    | inl same ↦ absurd (
        none-ne-some w (
          sym (lookup-erase_self k d u)
          ∙ subst (λ (i : ℕ). lookup i (erase k d) ≡ some w) (sym same) e))
    | inr other ↦ (other, sym (lookup-erase_ne k j d other) ∙ e)
  ]
