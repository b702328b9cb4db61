-- ===== src/Dalvik/Calls.antt =====
-- Each call on the references of a VM, from a well-formed state.
use emulite.Base.{
  ℕ, ◌+◌, ◌-◌, ◌≡◌, ◌≢◌, ap, sym, ◌∙◌, List, [], ◌∷◌, ltb, arith, eq_cases, Bool-cases, inl, inr,
}
use emulite.Base.Dict.{lookup, erase, contains, lookup-insert, lookup-erase_ne}
use emulite.Base.Keyed.{
  lookup-insert_self, lookup-insert_ne, lookup-insert_cases, lookup-erase, lookup-erase_self,
  lookup-erase_cases, insert-IsKeyed, erase-IsKeyed,
}
use emulite.Dalvik.{
  Object, DalvikVm, handle_for, forget, is_referenced, count_of, add_local, add_global,
  add_weak_global, delete_local, delete_global, delete_weak_global, delete_each,
}
use emulite.Dalvik.Valid.{IsTidy, IsValid, Handed, handle_for-Handed, forget-IsValid}

-- the references are the ones before, so all but the object of the handle is well-formed
module _ (vm : DalvikVm) (r : ℕ × DalvikVm) (v : IsValid vm) (d : Handed vm r) where
  pub Handed-IsTidy : IsTidy r.1
  Handed-IsTidy = record {
    linked = d.linked;
    local-IsKeyed = rw (d.same.0) v.tidy.local-IsKeyed;
    global-IsKeyed = rw (d.same.1) v.tidy.global-IsKeyed;
    counts-IsKeyed = rw (d.same.2) v.tidy.counts-IsKeyed;
    weak-IsKeyed = rw (d.same.3) v.tidy.weak-IsKeyed;
    counted = λ h. rw (d.same.1, d.same.2) (v.tidy.counted h);
    positive = λ h n e. v.tidy.positive h n (ap (lookup h) (sym d.same.2) ∙ e);
  }

  pub Handed_others : (h : ℕ) → h ≢ r.0 → contains h r.1.objects ≡ is_referenced h r.1
  Handed_others h n =
      let step : contains h r.1.objects ≡ contains h vm.objects = ground (arith, d.others h n) in
      rw (d.same.0, d.same.1, d.same.3) (step ∙ v.held h)

pub add_local-IsValid : (o : Object) (vm : DalvikVm) → IsValid vm → IsValid (add_local o vm).1
unfolding add_local
add_local-IsValid o vm v =
    let d = handle_for-Handed o vm v in
    let (handle, vm') = handle_for o vm in
    let t = Handed-IsTidy vm (handle, vm') v d in
    record {
      tidy = record {
        linked = t.linked;
        local-IsKeyed = insert-IsKeyed handle o vm'.local t.local-IsKeyed;
        global-IsKeyed = t.global-IsKeyed;
        counts-IsKeyed = t.counts-IsKeyed;
        weak-IsKeyed = t.weak-IsKeyed;
        counted = t.counted;
        positive = t.positive;
      };
      held = λ h. elim (eq_cases h handle) [
        | inl same ↦ rw same (ground (arith, d.stands, lookup-insert_self handle o vm'.local))
        | inr other ↦ ground (
          arith,
          Handed_others vm (handle, vm') v d h other,
          lookup-insert_ne handle h o vm'.local (λ q. other (sym q)),
        )
      ];
    }

pub add_weak_global-IsValid :
    (o : Object) (vm : DalvikVm) → IsValid vm → IsValid (add_weak_global o vm).1
unfolding add_weak_global
add_weak_global-IsValid o vm v =
    let d = handle_for-Handed o vm v in
    let (handle, vm') = handle_for o vm in
    let t = Handed-IsTidy vm (handle, vm') v d in
    record {
      tidy = record {
        linked = t.linked;
        local-IsKeyed = t.local-IsKeyed;
        global-IsKeyed = t.global-IsKeyed;
        counts-IsKeyed = t.counts-IsKeyed;
        weak-IsKeyed = insert-IsKeyed handle tt vm'.weak_global t.weak-IsKeyed;
        counted = t.counted;
        positive = t.positive;
      };
      held = λ h. elim (eq_cases h handle) [
        | inl same ↦
            rw same (ground (arith, d.stands, lookup-insert_self handle tt vm'.weak_global))
        | inr other ↦ ground (
          arith,
          Handed_others vm (handle, vm') v d h other,
          lookup-insert_ne handle h tt vm'.weak_global (λ q. other (sym q)),
        )
      ];
    }

pub add_global-IsValid : (o : Object) (vm : DalvikVm) → IsValid vm → IsValid (add_global o vm).1
unfolding add_global
add_global-IsValid o vm v =
    let d = handle_for-Handed o vm v in
    let (handle, vm') = handle_for o vm in
    let t = Handed-IsTidy vm (handle, vm') v d in
    let n = count_of handle vm'.global_refs + 1 in
    record {
      tidy = record {
        linked = t.linked;
        local-IsKeyed = t.local-IsKeyed;
        global-IsKeyed = insert-IsKeyed handle o vm'.global t.global-IsKeyed;
        counts-IsKeyed = insert-IsKeyed handle n vm'.global_refs t.counts-IsKeyed;
        weak-IsKeyed = t.weak-IsKeyed;
        counted = λ h. ground (
          arith,
          t.counted h,
          lookup-insert handle h o vm'.global,
          lookup-insert handle h n vm'.global_refs,
        );
        positive = λ h m e. elim (lookup-insert_cases handle h n m vm'.global_refs e) [
          | inl (same, it) ↦ omega (arith, it)
          | inr (other, there) ↦ t.positive h m there
        ];
      };
      held = λ h. elim (eq_cases h handle) [
        | inl same ↦ rw same (ground (arith, d.stands, lookup-insert_self handle o vm'.global))
        | inr other ↦ ground (
          arith,
          Handed_others vm (handle, vm') v d h other,
          lookup-insert_ne handle h o vm'.global (λ q. other (sym q)),
        )
      ];
    }

pub delete_local-IsValid : (ref : ℕ) (vm : DalvikVm) → IsValid vm → IsValid (delete_local ref vm)
unfolding delete_local
delete_local-IsValid ref vm v =
    let t = v.tidy in
    let gone = lookup-erase_self ref vm.local t.local-IsKeyed in
    forget-IsValid ref (record vm { local = erase ref vm.local })
      (record {
        linked = t.linked;
        local-IsKeyed = erase-IsKeyed ref vm.local t.local-IsKeyed;
        global-IsKeyed = t.global-IsKeyed;
        counts-IsKeyed = t.counts-IsKeyed;
        weak-IsKeyed = t.weak-IsKeyed;
        counted = t.counted;
        positive = t.positive;
      })
      (λ h n. ground (arith, v.held h, lookup-erase_ne ref h vm.local (λ q. n (sym q))))
      (λ q. ground (arith, v.held ref, gone, q))

pub delete_weak_global-IsValid :
    (ref : ℕ) (vm : DalvikVm) → IsValid vm → IsValid (delete_weak_global ref vm)
unfolding delete_weak_global
delete_weak_global-IsValid ref vm v =
    let t = v.tidy in
    let gone = lookup-erase_self ref vm.weak_global t.weak-IsKeyed in
    forget-IsValid ref (record vm { weak_global = erase ref vm.weak_global })
      (record {
        linked = t.linked;
        local-IsKeyed = t.local-IsKeyed;
        global-IsKeyed = t.global-IsKeyed;
        counts-IsKeyed = t.counts-IsKeyed;
        weak-IsKeyed = erase-IsKeyed ref vm.weak_global t.weak-IsKeyed;
        counted = t.counted;
        positive = t.positive;
      })
      (λ h n. ground (arith, v.held h, lookup-erase_ne ref h vm.weak_global (λ q. n (sym q))))
      (λ q. ground (arith, v.held ref, gone, q))

-- the last of several global references
drop_global-IsValid :
    (ref : ℕ) (vm : DalvikVm)
    → IsValid vm
    → IsValid (
        forget ref
          (record vm { global_refs = erase ref vm.global_refs; global = erase ref vm.global }))
drop_global-IsValid ref vm v =
    let t = v.tidy in
    let gone = lookup-erase_self ref vm.global t.global-IsKeyed in
    forget-IsValid ref
      (record vm { global_refs = erase ref vm.global_refs; global = erase ref vm.global })
      (record {
        linked = t.linked;
        local-IsKeyed = t.local-IsKeyed;
        global-IsKeyed = erase-IsKeyed ref vm.global t.global-IsKeyed;
        counts-IsKeyed = erase-IsKeyed ref vm.global_refs t.counts-IsKeyed;
        weak-IsKeyed = t.weak-IsKeyed;
        counted = λ h. ground (
          arith,
          t.counted h,
          lookup-erase ref h vm.global t.global-IsKeyed,
          lookup-erase ref h vm.global_refs t.counts-IsKeyed,
        );
        positive = λ h n e.
            t.positive h n (lookup-erase_cases ref h n vm.global_refs t.counts-IsKeyed e).1;
      })
      (λ h n. ground (arith, v.held h, lookup-erase_ne ref h vm.global (λ q. n (sym q))))
      (λ q. ground (arith, v.held ref, gone, q))

pub delete_global-IsValid : (ref : ℕ) (vm : DalvikVm) → IsValid vm → IsValid (delete_global ref vm)
unfolding delete_global
delete_global-IsValid ref vm v = elim (Bool-cases (ltb 1 (count_of ref vm.global_refs))) [
  | inl e ↦
      let t = v.tidy in
      let n = count_of ref vm.global_refs - 1 in
      rw (e, delete_global)
        (record {
          tidy = record {
            linked = t.linked;
            local-IsKeyed = t.local-IsKeyed;
            global-IsKeyed = t.global-IsKeyed;
            counts-IsKeyed = insert-IsKeyed ref n vm.global_refs t.counts-IsKeyed;
            weak-IsKeyed = t.weak-IsKeyed;
            counted = λ h.
                ground (arith, e, t.counted h, t.counted ref, lookup-insert ref h n vm.global_refs);
            positive = λ h m q. elim (lookup-insert_cases ref h n m vm.global_refs q) [
              | inl (same, it) ↦ ground (arith, e, it)
              | inr (other, there) ↦ t.positive h m there
            ];
          };
          held = v.held;
        })
  | inr e ↦ rw (e, delete_global) (drop_global-IsValid ref vm v)
]

pub delete_each-IsValid :
    (refs : List ℕ) (vm : DalvikVm) → IsValid vm → IsValid (delete_each refs vm)
unfolding delete_each
delete_each-IsValid [] vm v = v
delete_each-IsValid (r ∷ refs) vm v =
    delete_each-IsValid refs (delete_local r vm) (delete_local-IsValid r vm v)
