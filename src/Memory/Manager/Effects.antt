-- ===== src/Memory/Manager/Effects.antt =====
-- What `map`, `unmap` and `protect` have done to the table when they return.
use emulite.Base.{
  ℕ, zero, ◌+◌, ◌-◌, ◌%◌, ◌≤◌, ◌<◌, ◌≡◌, Bool, true, false, not, Option, none, some, arith, leb,
  ltb, ◌==◌, if◌then◌else◌, Bool-cases, inl, inr, suc, refl,
}
use Prim.Native.String.{String}
use emulite.Base.Int.{pos}
use emulite.Base.Action.{
  Result, ok, err, Fault, Action, Outcome, Outcome-bind, value_error, raise_if, modify, pure, ◌>>=◌,
}
use emulite.Memory.Layout.{page_size, page_align_up, page_align_down, page_align_up_bounds}
use emulite.Memory.Regions.{Region, carve, record_region}
use emulite.Memory.Regions.Views.{hits, view, in_range, view-record_region, view-carve}
use emulite.Memory.Backend.{Backend}
use emulite.Memory.Manager.Parts.{painted, view-protect_painted}
use emulite.Memory.Manager.{
  Manager, address_limit, map_range, unmap, validate_address, validated_size, positive_size,
  validate_range, on_machine, protect, protect_regions,
}

module _ (be : Backend) (pointer_size : ℕ) (s : Manager be) where
  -- the value is `a`, and the table is as it was
  abbrev Only : {A : Type 0} → A → A → Manager be → Type 0
  Only a a' s' = (a' ≡ a) × (s'.regions ≡ s.regions)

  -- the table is as it was
  abbrev pub Untouched : Manager be → Type 0
  Untouched s' = s'.regions ≡ s.regions

  -- from the table of `s` the call ends in `K`, or raises and leaves the table as it was
  record Leaves {A : Type 0} (K : A → Manager be → Type 0) (m : Action (Manager be) A)
      : Type 0 where
    at : (t : Manager be) → Untouched t → Outcome Untouched K (m t)

  -- the call hands back `a` and leaves the table alone
  abbrev Is : {A : Type 0} → A → Action (Manager be) A → Type 0
  Is a m = Leaves (Only a) m

  validate_address-Is : (a : ℕ) → Is a (validate_address be pointer_size (pos a))
  unfolding validate_address
  validate_address-Is a = elim (Bool-cases (leb (address_limit be pointer_size) a)) [
    | inl e ↦ record { at = λ t u. rw e u }
    | inr e ↦ record { at = λ t u. rw e (refl, u) }
  ]

  positive_size-Is : (n : ℕ) → Is n (positive_size be pointer_size (pos n))
  unfolding positive_size
  positive_size-Is zero = record { at = λ t u. u }
  positive_size-Is (suc n) = record { at = λ t u. (refl, u) }

  validated_size-Is : (n : ℕ) → Is (page_align_up n) (validated_size be pointer_size (pos n))
  unfolding validated_size positive_size
  validated_size-Is zero = record { at = λ t u. u }
  validated_size-Is (suc n) = record { at = λ t u. (refl, u) }

  raise_if-Is : (b : Bool) (e : Fault) → Is tt (raise_if b e)
  raise_if-Is true e = record { at = λ t u. u }
  raise_if-Is false e = record { at = λ t u. (refl, u) }

  validate_range-Is : (a n : ℕ) → Is tt (validate_range be pointer_size a n)
  unfolding validate_range
  validate_range-Is a n = raise_if-Is (ltb (address_limit be pointer_size) (a + n)) value_error

  answered :
      (t : Manager be)
      → Untouched t
      → (r : Result (Unit {0}) × be.Machine)
      → Outcome Untouched (Only tt) (r.0, record t { machine = r.1 })
  answered t u (ok _, m') = (refl, u)
  answered t u (err _, m') = u

  on_machine-Is : (m : Action be.Machine (Unit {0})) → Is tt (on_machine be pointer_size m)
  on_machine-Is m = record { at = λ t u. answered t u (m t.machine) }

  step :
      {A B : Type 0} (K : B → Manager be → Type 0) (a : A) (m : Action (Manager be) A)
      (f : A → Action (Manager be) B)
      → Is a m
      → ((b : A) → b ≡ a → Leaves K (f b))
      → Leaves K (m >>= f)
  step K a m f h k = record {
    at =
        λ t u. Outcome-bind Untouched (Only a) K m f t (h.at t u) (λ a' t' o. (k a' o.0).at t' o.1);
  }

  -- a size that is checked to be positive
  step_positive :
      {B : Type 0} (K : B → Manager be → Type 0) (n : ℕ) (f : ℕ → Action (Manager be) B)
      → ((m : ℕ) → m ≡ n → 0 < m → Leaves K (f m))
      → Leaves K (positive_size be pointer_size (pos n) >>= f)
  unfolding positive_size
  step_positive K zero f k = record { at = λ t u. u }
  step_positive K (suc n) f k = record { at = λ t u. (k (suc n) refl (omega arith)).at t u }

  -- what a call that returns has made of byte `x`; one that raises leaves the table as it was
  abbrev pub Shows : ℕ → Option (ℕ × String) → Result (Unit {0}) × Manager be → Type 0
  Shows x v r = Outcome Untouched (λ _ s'. view x s'.regions ≡ v) r

  -- `map` of a range that is not to be replaced, seen at a byte that at most one region holds:
  -- when it returns, the bytes of the range, up to whole pages, have the permissions and the
  -- label asked for, and every other byte is as it was; when it raises, the table is as it was.
  pub map_range-Shows :
      (a n perms x : ℕ) (label : String)
      → hits x s.regions ≤ 1
      → Shows x
          (if in_range a (a + page_align_up n) x then some (perms, label) else view x s.regions)
          (map_range be pointer_size (pos a) (pos n) perms label false s)
  unfolding map_range
  map_range-Shows a n perms x label h =
      let size = page_align_up n in
      let K = λ (_ : Unit {0}) (s' : Manager be).
        view x s'.regions
        ≡ (if in_range a (a + size) x then some (perms, label) else view x s.regions) in
      let r : Region = record { base = a; size = size; perms = perms; label = label } in
      let call : Leaves K (map_range be pointer_size (pos a) (pos n) perms label false) =
        step K a (validate_address be pointer_size (pos a)) _ (validate_address-Is a) λ b same.
          step K tt (raise_if (not (b % page_size == 0)) value_error) _
            (raise_if-Is (not (b % page_size == 0)) value_error)
            λ _ _.
              step K size (validated_size be pointer_size (pos n)) _ (validated_size-Is n)
                λ m sized.
                  step K tt (validate_range be pointer_size b m) _ (validate_range-Is b m) λ _ _.
                    step K tt (pure tt) _ (record { at = λ t u. (refl, u) })
                      λ _ _.
                        let kept : Region = record {
                          base = b;
                          size = m;
                          perms = perms;
                          label = label;
                        } in
                        step K tt (on_machine be pointer_size (be.mem_map b m perms))
                          (λ _. modify (λ t. record t { regions = record_region kept t.regions }))
                          (on_machine-Is (be.mem_map b m perms))
                          λ _ _. record {
                            at = λ t u. rw (u, same, sized) (view-record_region x r s.regions h);
                          } in
      call.at s refl

  -- When `unmap` returns, the bytes of every page that the range touches are forgotten, and
  -- every other byte is as it was; when it raises, the table is as it was.
  pub unmap-Shows :
      (a n x : ℕ)
      → Shows x
          (if in_range
              (page_align_down a)
              (page_align_down a + page_align_up (n + (a - page_align_down a)))
              x
            then none
            else view x s.regions)
          (unmap be pointer_size (pos a) (pos n) s)
  unfolding unmap
  unmap-Shows a n x =
      let lo = page_align_down a in
      let span = page_align_up (n + (a - lo)) in
      let K = λ (_ : Unit {0}) (s' : Manager be).
        view x s'.regions ≡ (if in_range lo (lo + span) x then none else view x s.regions) in
      let call : Leaves K (unmap be pointer_size (pos a) (pos n)) =
        step K a (validate_address be pointer_size (pos a)) _ (validate_address-Is a) λ b same.
          let start = page_align_down b in
          step K n (positive_size be pointer_size (pos n)) _ (positive_size-Is n) λ m sized.
            let size = page_align_up (m + (b - start)) in
            step K tt (validate_range be pointer_size start size) _ (validate_range-Is start size)
              λ _ _.
                step K tt (on_machine be pointer_size (be.mem_unmap start size))
                  (λ _. modify (λ t. record t { regions = carve start (start + size) t.regions }))
                  (on_machine-Is (be.mem_unmap start size))
                  λ _ _. record {
                    at = λ t u.
                        rw (u, same, sized) (view-carve x lo (lo + span) s.regions (omega arith));
                  } in
      call.at s refl

  protect_regions-Leaves :
      (lo hi perms x : ℕ)
      → lo < hi
      → hits x s.regions ≤ 1
      → Leaves
          (λ (_ : Unit {0}) s'. view x s'.regions ≡ painted lo hi perms x s.regions)
          (modify (λ t. record t { regions = protect_regions lo hi perms t.regions }))
  protect_regions-Leaves lo hi perms x ordered h = record {
    at = λ t u. rw u (view-protect_painted lo hi perms ordered x s.regions h);
  }

  -- `protect`, seen at a byte that at most one region holds: when it returns, in the pages that the
  -- range touches a mapped byte has the new permissions and keeps its label, and an unmapped one
  -- stays unmapped, but where no region reaches into those pages, each of their bytes is recorded
  -- with the new permissions and an empty label; a byte of any other page is as it was; when it
  -- raises, the table is as it was.
  pub protect-Shows :
      (a n perms x : ℕ)
      → hits x s.regions ≤ 1
      → Shows x
          (painted
            (page_align_down a)
            (page_align_down a + page_align_up (n + (a - page_align_down a)))
            perms
            x
            s.regions)
          (protect be pointer_size (pos a) (pos n) perms s)
  unfolding protect positive_size
  protect-Shows a n perms x h =
      let lo = page_align_down a in
      let span = page_align_up (n + (a - lo)) in
      let K = λ (_ : Unit {0}) (s' : Manager be).
        view x s'.regions ≡ painted lo (lo + span) perms x s.regions in
      let call : Leaves K (protect be pointer_size (pos a) (pos n) perms) =
        step K a (validate_address be pointer_size (pos a)) _ (validate_address-Is a) λ b same.
          let start = page_align_down b in
          step_positive K n _ λ m sized p.
            let size = page_align_up (m + (b - start)) in
            step K tt (validate_range be pointer_size start size) _ (validate_range-Is start size)
              λ _ _.
                step K tt (on_machine be pointer_size (be.mem_protect start size perms))
                  (λ _. modify (λ t. record t {
                    regions = protect_regions start (start + size) perms t.regions;
                  }))
                  (on_machine-Is (be.mem_protect start size perms))
                  λ _ _.
                    rw (same, sized)
                      (protect_regions-Leaves lo (lo + span) perms x
                        (omega (arith, page_align_up_bounds (n + (a - lo)), p, sized)) h) in
      call.at s refl
