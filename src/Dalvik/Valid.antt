-- ===== src/Dalvik/Valid.antt =====
-- The well-formed state of a VM, and the handle of an object.
use emulite.Base.{
  ℕ, ◌≤◌, ◌≡◌, ◌≢◌, refl, ap, sym, ◌∙◌, some, true, arith, eq_cases, Bool-cases, Option-cases, inl,
  inr,
}
use emulite.Base.Dict.{lookup, contains, lookup-insert, lookup-erase_ne}
use emulite.Base.Keyed.{IsKeyed, lookup-insert_self, lookup-insert_ne, lookup-erase_self}
use emulite.Base.Text.{Text}
use emulite.Dalvik.{
  Object, identity, DalvikVm, instance_object, own_class, foreign_class, class_for, get_class,
  canonical, enter_handle, handle_for, forget, is_referenced,
}
use emulite.Dalvik.Linked.{IsLinked, next_absent, enter-IsLinked, forget-IsLinked}

-- All of the well-formed state but for what keeps an object: handles and objects refer to each
-- other; a global reference has a count from 1 on, and nothing else has a count.
pub record IsTidy (vm : DalvikVm) : Type 0 where
  pub linked : IsLinked vm.objects vm.handles vm.next_ref
  pub local-IsKeyed : IsKeyed vm.local
  pub global-IsKeyed : IsKeyed vm.global
  pub counts-IsKeyed : IsKeyed vm.global_refs
  pub weak-IsKeyed : IsKeyed vm.weak_global
  pub counted : (h : ℕ) → contains h vm.global_refs ≡ contains h vm.global
  pub positive : (h n : ℕ) → lookup h vm.global_refs ≡ some n → 1 ≤ n

-- The objects that are kept are exactly those with a local, global or weak reference.
pub record IsValid (vm : DalvikVm) : Type 0 where
  pub tidy : IsTidy vm
  pub held : (h : ℕ) → contains h vm.objects ≡ is_referenced h vm

-- the references of a VM are those of another
abbrev pub SameRefs : DalvikVm → DalvikVm → Type 0
SameRefs a b =
    (a.local ≡ b.local)
    × (a.global ≡ b.global)
    × (a.global_refs ≡ b.global_refs)
    × (a.weak_global ≡ b.weak_global)

-- what `handle_for` comes to
pub record Handed (vm : DalvikVm) (r : ℕ × DalvikVm) : Type 0 where
  pub linked : IsLinked r.1.objects r.1.handles r.1.next_ref
  pub same : SameRefs r.1 vm
  pub stands : contains r.0 r.1.objects ≡ true
  pub others : (k : ℕ) → k ≢ r.0 → lookup k r.1.objects ≡ lookup k vm.objects
  pub kept : (k : ℕ) (p : Object) → lookup k vm.objects ≡ some p → lookup k r.1.objects ≡ some p

enter_handle-Handed :
    (o : Object) (vm : DalvikVm)
    → IsLinked vm.objects vm.handles vm.next_ref
    → Handed vm (enter_handle o vm)
unfolding enter_handle
enter_handle-Handed o vm v = elim (Option-cases (lookup (identity o) vm.handles)) [
  | inl new ↦
      let absent = next_absent vm.objects vm.handles vm.next_ref v in
      rw (new, enter_handle)
        (record {
          linked = enter-IsLinked vm.objects vm.handles vm.next_ref v o new;
          same = (refl, refl, refl, refl);
          stands = ground (arith, lookup-insert_self vm.next_ref o vm.objects);
          others = λ k n. lookup-insert_ne vm.next_ref k o vm.objects (λ q. n (sym q));
          kept = λ k p e. ground (arith, absent, e, lookup-insert vm.next_ref k o vm.objects);
        })
  | inr (h, e) ↦
      let (p, at, same) = v.back (identity o) h e in
      rw (e, enter_handle)
        (record {
          linked = v;
          same = (refl, refl, refl, refl);
          stands = ground (arith, at);
          others = λ k n. refl;
          kept = λ k p e. e;
        })
]

-- making a class adds no handle
abbrev SameHandles : DalvikVm → DalvikVm → Type 0
SameHandles a b =
    (a.objects ≡ b.objects) × (a.handles ≡ b.handles) × (a.next_ref ≡ b.next_ref) × SameRefs a b

class_for-SameHandles : (name : Text) (vm : DalvikVm) → SameHandles (class_for name vm).1 vm
unfolding class_for
class_for-SameHandles name vm = elim (Option-cases (get_class name vm.classes)) [
  | inl e ↦ rw (e, class_for) (refl, refl, refl, (refl, refl, refl, refl))
  | inr (klass, e) ↦ rw (e, class_for) (refl, refl, refl, (refl, refl, refl, refl))
]

canonical-SameHandles : (o : Object) (vm : DalvikVm) → SameHandles (canonical o vm).1 vm
unfolding canonical
canonical-SameHandles (instance_object i) vm = (refl, refl, refl, (refl, refl, refl, refl))
canonical-SameHandles (own_class i name) vm = (refl, refl, refl, (refl, refl, refl, refl))
canonical-SameHandles (foreign_class i name) vm = class_for-SameHandles name vm

pub handle_for-Handed : (o : Object) (vm : DalvikVm) → IsValid vm → Handed vm (handle_for o vm)
unfolding handle_for
handle_for-Handed o vm v =
    let (known, vm') = canonical o vm in
    let (objects, handles, next, refs) = canonical-SameHandles o vm in
    let l : IsLinked vm'.objects vm'.handles vm'.next_ref =
      rw (objects, handles, next) v.tidy.linked in
    let d = enter_handle-Handed known vm' l in
    record {
      linked = d.linked;
      same = (d.same.0 ∙ refs.0, d.same.1 ∙ refs.1, d.same.2 ∙ refs.2, d.same.3 ∙ refs.3);
      stands = d.stands;
      others = λ k n. d.others k n ∙ ap (lookup k) objects;
      kept = λ k p e. d.kept k p (ap (lookup k) objects ∙ e);
    }

-- `forget` keeps a state well-formed, where only the object that it is about may have no reference.
pub forget-IsValid :
    (ref : ℕ) (vm : DalvikVm)
    → IsTidy vm
    → ((h : ℕ) → h ≢ ref → contains h vm.objects ≡ is_referenced h vm)
    → (is_referenced ref vm ≡ true → contains ref vm.objects ≡ true)
    → IsValid (forget ref vm)
unfolding forget
forget-IsValid ref vm t others own = elim (Bool-cases (is_referenced ref vm)) [
  | inl e ↦
      rw (e, forget)
        (record {
          tidy = t;
          held = λ h. elim (eq_cases h ref) [
            | inl same ↦ rw same (own e ∙ sym e)
            | inr other ↦ others h other
          ];
        })
  | inr e ↦ elim (Option-cases (lookup ref vm.objects)) [
    | inl absent ↦
        rw (e, absent, forget)
          (record {
            tidy = t;
            held = λ h. elim (eq_cases h ref) [
              | inl same ↦ rw same (ground (arith, absent, e))
              | inr other ↦ others h other
            ];
          })
    | inr (o, there) ↦
        rw (e, there, forget)
          (record {
            tidy = record {
              linked = forget-IsLinked vm.objects vm.handles vm.next_ref t.linked ref o there;
              local-IsKeyed = t.local-IsKeyed;
              global-IsKeyed = t.global-IsKeyed;
              counts-IsKeyed = t.counts-IsKeyed;
              weak-IsKeyed = t.weak-IsKeyed;
              counted = t.counted;
              positive = t.positive;
            };
            held = λ h. elim (eq_cases h ref) [
              | inl same ↦
                  rw same
                    (ground (arith, lookup-erase_self ref vm.objects t.linked.objects-IsKeyed, e))
              | inr other ↦
                  ground
                    (arith, lookup-erase_ne ref h vm.objects (λ q. other (sym q)), others h other)
            ];
          })
  ]
]
