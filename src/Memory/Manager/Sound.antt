-- ===== src/Memory/Manager/Sound.antt =====
-- The invariant of the memory manager, the steps that its calls are built of, and `map`.
use emulite.Base.{
  ℕ, zero, suc, ◌+◌, ◌-◌, ◌%◌, ◌≤◌, ◌<◌, ◌≡◌, refl, max, min, Bool, true, false, not, List, [], ◌∷◌,
  arith, ltb, leb, ◌==◌, if◌then◌else◌, Bool-cases, inl, inr,
}
use Prim.Native.String.{String}
use emulite.Base.Int.{ℤ, pos, negsuc}
use emulite.Base.Action.{
  Result, ok, err, Action, Ensures, Ensures-bind, Fault, value_error, raise_if, modify, pure, ◌>>=◌,
  ◌>>◌,
}
use emulite.Memory.Layout.{
  page_size, heap_base, mmap_base, lib_base, return_sentinel, poison_base, page_align_up,
  page_align_up_bounds,
}
use emulite.Memory.Regions.{Region, end_of, overlaps, carve, record_region}
use emulite.Memory.Regions.Proper.{Region-IsProper, All}
use emulite.Memory.Backend.{Backend}
use emulite.Memory.Manager.{
  Manager, address_limit, on_machine, validate_address, positive_size, validated_size,
  validate_range, unmap_each, unmap_overlap, map_range,
}
use emulite.Memory.Manager.Table.{IsTable, carve-IsTable, record_region-IsTable}

pub record IsSound (be : Backend) (pointer_size : ℕ) (s : Manager be) : Type 0 where
  pub table : IsTable (address_limit be pointer_size) s.regions
  pub arena :
      (mmap_base ≤ s.mmap_cursor) × (s.mmap_cursor ≤ lib_base) × (s.mmap_cursor % page_size ≡ 0)
  pub libs : (lib_base ≤ s.lib) × (s.lib ≤ return_sentinel)
  pub break :
      (heap_base ≤ s.heap) × (s.heap ≤ mmap_base) × (s.heap_mapped_end ≡ page_align_up s.heap)
  pub poisons :
      (poison_base ≤ s.poison) × (s.poison + 16 ≤ poison_base + page_size) × (s.poison % 16 ≡ 0)

module _ (be : Backend) (pointer_size : ℕ) where
  abbrev Sound : Manager be → Type 0
  Sound = IsSound be pointer_size

  abbrev limit : ℕ
  limit = address_limit be pointer_size

  -- the call keeps the invariant, returning or raising, and what it returns satisfies `Q`
  pub record Post {A : Type 0} (Q : A → Type 0) (m : Action (Manager be) A) : Type 0 where
    pub at : (s : Manager be) → Sound s → Ensures Sound Q (m s)

  abbrev pub Keeps : {A : Type 0} → Action (Manager be) A → Type 0
  Keeps m = Post (λ _. Unit) m

  pub Post-bind :
      {A B : Type 0} (Q : A → Type 0) (R : B → Type 0) (m : Action (Manager be) A)
      (f : A → Action (Manager be) B)
      → Post Q m
      → ((a : A) → Q a → Post R (f a))
      → Post R (m >>= f)
  Post-bind Q R m f h k = record {
    at = λ s v. Ensures-bind Sound Q R m f s (h.at s v) (λ a s' v' q. (k a q).at s' v');
  }

  pub Keeps-then :
      {A B : Type 0} (R : B → Type 0) (m : Action (Manager be) A) (k : Action (Manager be) B)
      → Keeps m
      → Post R k
      → Post R (m >> k)
  Keeps-then R m k h g = Post-bind (λ _. Unit) R m (λ _. k) h (λ a u. g)

  -- the table may be exchanged for another well-formed one
  pub retable :
      (s : Manager be) (rs : List Region)
      → Sound s
      → IsTable limit rs
      → Sound (record s { regions = rs })
  retable s rs v t = record {
    table = t;
    arena = v.arena;
    libs = v.libs;
    break = v.break;
    poisons = v.poisons;
  }

  remachine : (s : Manager be) (m : be.Machine) → Sound s → Sound (record s { machine = m })
  remachine s m v = record {
    table = v.table;
    arena = v.arena;
    libs = v.libs;
    break = v.break;
    poisons = v.poisons;
  }

  keep_result :
      {A : Type 0} (s : Manager be) (r : Result A × be.Machine)
      → Sound s
      → Ensures Sound (λ _. Unit) (r.0, record s { machine = r.1 })
  keep_result s (ok a, m) v = (remachine s m v, tt)
  keep_result s (err e, m) v = remachine s m v

  pub on_machine-Keeps :
      {A : Type 0} (m : Action be.Machine A) → Keeps (on_machine be pointer_size m)
  on_machine-Keeps m = record { at = λ s v. keep_result s (m s.machine) v }

  pub validate_address-Post : (a : ℤ) → Post (λ n. n < limit) (validate_address be pointer_size a)
  unfolding validate_address
  validate_address-Post (negsuc _) = record { at = λ s v. v }
  validate_address-Post (pos n) = elim (Bool-cases (leb limit n)) [
    | inl e ↦ record { at = λ s v. rw e v }
    | inr e ↦ record { at = λ s v. rw e (v, ground arith) }
  ]

  pub positive_size-Post : (n : ℤ) → Post (λ n. 0 < n) (positive_size be pointer_size n)
  unfolding positive_size
  positive_size-Post (negsuc _) = record { at = λ s v. v }
  positive_size-Post (pos zero) = record { at = λ s v. v }
  positive_size-Post (pos (suc n)) = record { at = λ s v. (v, omega arith) }

  abbrev pub IsSpan : ℕ → Type 0
  IsSpan n = (0 < n) × (n % page_size ≡ 0)

  pub validated_size-Post : (n : ℤ) → Post IsSpan (validated_size be pointer_size n)
  unfolding validated_size
  validated_size-Post n =
      Post-bind (λ n. 0 < n) IsSpan (positive_size be pointer_size n) (λ n. pure (page_align_up n))
        (positive_size-Post n)
        (λ n p. record {
          at = λ s v. (v, (omega (arith, page_align_up_bounds n), (page_align_up_bounds n).2));
        })

  pub raise_if-Post : (b : Bool) (e : Fault) → Post (λ _. b ≡ false) (raise_if b e)
  raise_if-Post true e = record { at = λ s v. v }
  raise_if-Post false e = record { at = λ s v. (v, refl) }

  pub validate_range-Post :
      (a n : ℕ) → Post (λ _. a + n ≤ limit) (validate_range be pointer_size a n)
  unfolding validate_range
  validate_range-Post a n = elim (Bool-cases (ltb limit (a + n))) [
    | inl e ↦ record { at = λ s v. rw e v }
    | inr e ↦ record { at = λ s v. rw e (v, ground arith) }
  ]

  pub carve-Keeps :
      (lo hi : ℕ)
      → lo % page_size ≡ 0
      → hi % page_size ≡ 0
      → lo ≤ hi
      → Keeps (modify (λ s. record s { regions = carve lo hi s.regions }))
  carve-Keeps lo hi a b o = record {
    at = λ s v. (
      retable s (carve lo hi s.regions) v (carve-IsTable limit lo hi s.regions a b o v.table),
      tt,
    );
  }

  unmap_each-Keeps :
      (lo hi : ℕ)
      → lo % page_size ≡ 0
      → hi % page_size ≡ 0
      → lo ≤ hi
      → (rs : List Region) → All (Region-IsProper limit) rs
      → Keeps (unmap_each be pointer_size lo hi rs)
  unfolding unmap_each overlaps
  unmap_each-Keeps lo hi a b o [] h = record { at = λ s v. (v, tt) }
  unmap_each-Keeps lo hi a b o (r ∷ rs) h = elim (Bool-cases (overlaps lo hi r)) [
    | inl over ↦
        let l = max r.base lo in
        let e = min (end_of r) hi in
        rw over (
          Keeps-then (λ _. Unit) (on_machine be pointer_size (be.mem_unmap l (e - l))) _
            (on_machine-Keeps (be.mem_unmap l (e - l)))
            (Keeps-then (λ _. Unit) (modify (λ s. record s { regions = carve l e s.regions }))
              (unmap_each be pointer_size lo hi rs)
              (carve-Keeps l e (ground (arith, h.0)) (ground (arith, h.0)) (ground (arith, h.0)))
              (unmap_each-Keeps lo hi a b o rs h.1)))
    | inr free ↦ rw free (unmap_each-Keeps lo hi a b o rs h.1)
  ]

  unmap_overlap-Keeps :
      (lo hi : ℕ)
      → lo % page_size ≡ 0
      → hi % page_size ≡ 0
      → lo ≤ hi
      → Keeps (unmap_overlap be pointer_size lo hi)
  unfolding unmap_overlap
  unmap_overlap-Keeps lo hi a b o = record {
    at = λ s v. (unmap_each-Keeps lo hi a b o s.regions v.table.proper).at s v;
  }

  replace-Keeps :
      (lo hi : ℕ) (replace : Bool)
      → lo % page_size ≡ 0
      → hi % page_size ≡ 0
      → lo ≤ hi
      → Keeps (if replace then unmap_overlap be pointer_size lo hi else pure tt)
  replace-Keeps lo hi true a b o = unmap_overlap-Keeps lo hi a b o
  replace-Keeps lo hi false a b o = record { at = λ s v. (v, tt) }

  record-Keeps :
      (r : Region)
      → Region-IsProper limit r
      → Keeps (modify (λ s. record s { regions = record_region r s.regions }))
  record-Keeps r p = record {
    at = λ s v. (
      retable s (record_region r s.regions) v (record_region-IsTable limit r s.regions p v.table),
      tt,
    );
  }

  pub map_range-Keeps :
      (address size : ℤ) (perms : ℕ) (label : String) (replace : Bool)
      → Keeps (map_range be pointer_size address size perms label replace)
  unfolding map_range
  map_range-Keeps address size perms label replace =
      Post-bind (λ n. n < limit) (λ _. Unit) (validate_address be pointer_size address) _
        (validate_address-Post address)
        λ a small.
          Post-bind (λ _. not (a % page_size == 0) ≡ false) (λ _. Unit)
            (raise_if (not (a % page_size == 0)) value_error) _
            (raise_if-Post (not (a % page_size == 0)) value_error)
            λ _ page.
              let on_page : a % page_size ≡ 0 = ground arith in
              Post-bind IsSpan (λ _. Unit) (validated_size be pointer_size size) _
                (validated_size-Post size)
                λ n span.
                  Post-bind (λ _. a + n ≤ limit) (λ _. Unit) (validate_range be pointer_size a n) _
                    (validate_range-Post a n)
                    λ _ fits.
                      Keeps-then (λ _. Unit)
                        (if replace then unmap_overlap be pointer_size a (a + n) else pure tt) _
                        (replace-Keeps a (a + n) replace on_page (omega arith) (omega arith))
                        (Keeps-then (λ _. Unit) (on_machine be pointer_size (be.mem_map a n perms))
                          _ (on_machine-Keeps (be.mem_map a n perms))
                          (record-Keeps
                            (record { base = a; size = n; perms = perms; label = label })
                            (span.0, on_page, span.1, fits)))
