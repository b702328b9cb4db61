-- ===== src/Dalvik/Frames.antt =====
-- The local references that a native call leaves behind.
use emulite.Base.{
  ℕ, ◌≡◌, refl, ap, ◌∙◌, Option, none, some, List, [], ◌∷◌, Bool, true, false, ◌&&◌, not, ◌==◌,
  arith, eq_cases, Bool-cases, Option-cases, inl, inr, if◌then◌else◌,
}
use emulite.Base.Dict.{Dict, lookup, erase, contains, lookup-erase_ne}
use emulite.Base.Keyed.{lookup-erase}
use emulite.Dalvik.{
  Object, DalvikVm, forget, get, is_referenced, delete_local, delete_each, local_release, outside,
  keys, elem,
}
use emulite.Dalvik.Valid.{IsValid, SameRefs}
use emulite.Dalvik.Calls.{delete_local-IsValid, delete_each-IsValid}

-- `forget` leaves the references, and every object but the one it is about
forget-SameRefs : (ref : ℕ) (vm : DalvikVm) → SameRefs (forget ref vm) vm
unfolding forget
forget-SameRefs ref vm = elim (Bool-cases (is_referenced ref vm)) [
  | inl e ↦ rw (e, forget) (refl, refl, refl, refl)
  | inr e ↦ elim (Option-cases (lookup ref vm.objects)) [
    | inl absent ↦ rw (e, absent, forget) (refl, refl, refl, refl)
    | inr (o, there) ↦ rw (e, there, forget) (refl, refl, refl, refl)
  ]
]

pub get-forget :
    (ref k : ℕ) (vm : DalvikVm)
    → is_referenced k vm ≡ true
    → lookup k (forget ref vm).objects ≡ lookup k vm.objects
unfolding forget
get-forget ref k vm q = elim (Bool-cases (is_referenced ref vm)) [
  | inl e ↦ rw (e, forget) refl
  | inr e ↦ elim (Option-cases (lookup ref vm.objects)) [
    | inl absent ↦ rw (e, absent, forget) refl
    | inr (o, there) ↦ elim (eq_cases ref k) [
      | inl same ↦ absurd (ground (arith, same, q, e))
      | inr other ↦ rw (e, there, forget) (lookup-erase_ne ref k vm.objects other)
    ]
  ]
]

-- what deleting some local references leaves
record Left (refs : List ℕ) (vm vm' : DalvikVm) : Type 0 where
  locals : (k : ℕ) → lookup k vm'.local ≡ (if elem k refs then none else lookup k vm.local)
  globals : vm'.global ≡ vm.global
  counts : vm'.global_refs ≡ vm.global_refs
  weak : vm'.weak_global ≡ vm.weak_global
  live : (k : ℕ) → is_referenced k vm' ≡ true → lookup k vm'.objects ≡ lookup k vm.objects

delete_each-Left : (refs : List ℕ) (vm : DalvikVm) → IsValid vm → Left refs vm (delete_each refs vm)
unfolding delete_each delete_local
delete_each-Left [] vm v = record {
  locals = λ k. refl;
  globals = refl;
  counts = refl;
  weak = refl;
  live = λ k q. refl;
}
delete_each-Left (r ∷ refs) vm v =
    let cut = record vm { local = erase r vm.local } in
    let same = forget-SameRefs r cut in
    let rest = delete_each-Left refs (delete_local r vm) (delete_local-IsValid r vm v) in
    let gone : (k : ℕ)
        → lookup k (delete_local r vm).local ≡ (if r == k then none else lookup k vm.local) =
      λ k. ap (lookup k) (same.0) ∙ lookup-erase r k vm.local v.tidy.local-IsKeyed in
    record {
      locals = λ k. ground (arith, rest.locals k, gone k);
      globals = rest.globals ∙ same.1;
      counts = rest.counts ∙ same.2;
      weak = rest.weak ∙ same.3;
      live = λ k q.
          let final = delete_each refs (delete_local r vm) in
          let g : contains k final.global ≡ contains k vm.global =
            ap (contains k) (rest.globals ∙ same.1) in
          let w : contains k final.weak_global ≡ contains k vm.weak_global =
            ap (contains k) (rest.weak ∙ same.3) in
          let l : lookup k final.local
              ≡ (if elem k refs then none else lookup k (erase r vm.local)) =
            rest.locals k
            ∙ ap (λ (o : Option Object). if elem k refs then none else o)
                (ap (lookup k) (same.0)) in
          let before : is_referenced k cut ≡ true = ground (arith, q, g, w, l) in
          rest.live k q ∙ get-forget r k cut before;
    }

-- a key of the dict
elem-keys : (k : ℕ) (d : Dict Object) → elem k (keys d) ≡ contains k d
elem-keys k [] = refl
elem-keys k ((j, o) ∷ d) = ground (arith, elem-keys k d)

elem-outside :
    (k : ℕ) (mark refs : List ℕ) → elem k (outside mark refs) ≡ (elem k refs && not (elem k mark))
elem-outside k mark [] = refl
elem-outside k mark (r ∷ refs) = elim (eq_cases r k) [
  | inl same ↦ ground (arith, same, elem-outside k mark refs)
  | inr other ↦ ground (arith, elem-outside k mark refs)
]

abbrev is_some : Option Object → Bool
is_some none = false
is_some (some _) = true

only_while :
    (b : Bool) (x y : Option Object)
    → (b ≡ true → x ≡ y)
    → is_some x ≡ b
    → x ≡ (if b then y else none)
only_while true x y live held = live refl
only_while false none y live held = refl
only_while false (some o) y live held = absurd (ground (arith, held))

-- From a well-formed VM, `local_release` of a mark leaves of the local references exactly those
-- that the mark has, and leaves the global references, their counts and the weak references as
-- they were; a reference that is left still has its object, and one that is not left has none.
pub local_release_keeps :
    (k : ℕ) (mark : List ℕ) (vm : DalvikVm)
    → IsValid vm
    → let vm' = local_release mark vm in
      (lookup k vm'.local ≡ (if elem k mark then lookup k vm.local else none))
      × (lookup k vm'.global ≡ lookup k vm.global)
      × (lookup k vm'.global_refs ≡ lookup k vm.global_refs)
      × (lookup k vm'.weak_global ≡ lookup k vm.weak_global)
      × (get k vm' ≡ (if is_referenced k vm' then get k vm else none))
unfolding local_release get
local_release_keeps k mark vm v =
    let refs = outside mark (keys vm.local) in
    let left = delete_each-Left refs vm v in
    let vm' = delete_each refs vm in
    let valid = delete_each-IsValid refs vm v in
    (
      ground (arith, left.locals k, elem-outside k mark (keys vm.local), elem-keys k vm.local),
      ap (lookup k) left.globals,
      ap (lookup k) left.counts,
      ap (lookup k) left.weak,
      only_while (is_referenced k vm') (lookup k vm'.objects) (lookup k vm.objects) (left.live k)
          (valid.held k),
    )
