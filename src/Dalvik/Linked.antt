-- ===== src/Dalvik/Linked.antt =====
-- How the handles and the objects of a VM refer to each other.
use emulite.Base.{ℕ, suc, ◌<◌, ◌≡◌, ◌≢◌, ap, sym, ◌∙◌, none, some, arith, Option-cases, inl, inr}
use emulite.Base.Dict.{Dict, lookup, insert, erase, lookup-erase_ne}
use emulite.Base.Keyed.{
  IsKeyed, lookup-insert_self, lookup-insert_ne, lookup-insert_cases, lookup-erase_cases,
  insert-IsKeyed, erase-IsKeyed,
}
use mathlib.Core.Path.{subst}
use mathlib.Core.Option.{some-injective, none-ne-some}
use emulite.Dalvik.{Object, identity}

-- Every live handle stands for one object, every such object has one handle, and a handle that is
-- handed out next was never handed out.
pub record IsLinked (objects : Dict Object) (handles : Dict ℕ) (next_ref : ℕ) : Type 0 where
  pub objects-IsKeyed : IsKeyed objects
  pub handles-IsKeyed : IsKeyed handles
  pub forth :
      (h : ℕ) (o : Object) → lookup h objects ≡ some o → lookup (identity o) handles ≡ some h
  pub back :
      (i h : ℕ)
      → lookup i handles ≡ some h
      → (o : Object) × (lookup h objects ≡ some o) × (identity o ≡ i)
  pub below : (h : ℕ) (o : Object) → lookup h objects ≡ some o → h < next_ref

module _ (objects : Dict Object) (handles : Dict ℕ) (next_ref : ℕ)
    (v : IsLinked objects handles next_ref) where
  pub next_absent : lookup next_ref objects ≡ none
  next_absent = elim (Option-cases (lookup next_ref objects)) [
    | inl e ↦ e
    | inr (o, e) ↦ absurd (let low = v.below next_ref o e in omega arith)
  ]

  pub enter-IsLinked :
      (o : Object)
      → lookup (identity o) handles ≡ none
      → IsLinked (insert next_ref o objects) (insert (identity o) next_ref handles) (suc next_ref)
  enter-IsLinked o new = record {
    objects-IsKeyed = insert-IsKeyed next_ref o objects v.objects-IsKeyed;
    handles-IsKeyed = insert-IsKeyed (identity o) next_ref handles v.handles-IsKeyed;
    forth = λ h p e. elim (lookup-insert_cases next_ref h o p objects e) [
      | inl (same, it) ↦ rw (← same, ← it) (lookup-insert_self (identity o) next_ref handles)
      | inr (other, there) ↦
          let known = v.forth h p there in
          let apart : identity o ≢ identity p = λ q.
            none-ne-some h (sym new ∙ subst (λ (i : ℕ). lookup i handles ≡ some h) (sym q) known) in
          lookup-insert_ne (identity o) (identity p) next_ref handles apart ∙ known
    ];
    back = λ i h e. elim (lookup-insert_cases (identity o) i next_ref h handles e) [
      | inl (same, it) ↦ (o, rw (← it) (lookup-insert_self next_ref o objects), same)
      | inr (other, there) ↦
          let (p, at, same) = v.back i h there in
          let low = v.below h p at in
          let apart : next_ref ≢ h = λ q. omega (arith, q) in
          (p, lookup-insert_ne next_ref h o objects apart ∙ at, same)
    ];
    below = λ h p e. elim (lookup-insert_cases next_ref h o p objects e) [
      | inl (same, it) ↦ omega (arith, same)
      | inr (other, there) ↦ omega (arith, v.below h p there)
    ];
  }

  pub forget-IsLinked :
      (h : ℕ) (o : Object)
      → lookup h objects ≡ some o
      → IsLinked (erase h objects) (erase (identity o) handles) next_ref
  forget-IsLinked h o found = record {
    objects-IsKeyed = erase-IsKeyed h objects v.objects-IsKeyed;
    handles-IsKeyed = erase-IsKeyed (identity o) handles v.handles-IsKeyed;
    forth = λ k p e.
        let (other, there) = lookup-erase_cases h k p objects v.objects-IsKeyed e in
        let known = v.forth k p there in
        let apart : identity o ≢ identity p = λ q. other (
          some-injective h k (
            sym (v.forth h o found)
            ∙ subst (λ (i : ℕ). lookup i handles ≡ some k) (sym q) known)) in
        lookup-erase_ne (identity o) (identity p) handles apart ∙ known;
    back = λ i k e.
        let (other, there) = lookup-erase_cases (identity o) i k handles v.handles-IsKeyed e in
        let (p, at, same) = v.back i k there in
        let apart : h ≢ k = λ q. other (
          ap identity (
            some-injective o p
              (sym found ∙ subst (λ (j : ℕ). lookup j objects ≡ some p) (sym q) at))
          ∙ same) in
        (p, lookup-erase_ne h k objects apart ∙ at, same);
    below = λ k p e. v.below k p (lookup-erase_cases h k p objects v.objects-IsKeyed e).1;
  }
