-- ===== src/Memory/Manager/Calls.antt =====
-- `protect`, `unmap` and `mmap`, and the invariant of the memory manager; `map` is in `Sound`.
use emulite.Base.{ℕ, ◌+◌, ◌-◌, ◌%◌, ◌≤◌, ◌<◌, ◌≡◌, false, Option, none, some, arith, ltb}
use Prim.Native.String.{String}
use emulite.Base.Int.{ℤ, pos}
use emulite.Base.Action.{crashed, pure, raise_if, gets, modify}
use emulite.Memory.Layout.{
  page_size, mmap_base, lib_base, page_align_up, page_align_down, page_align_up_bounds,
  page_align_down_bounds,
}
use emulite.Memory.Backend.{Backend}
use emulite.Memory.Manager.{
  address_limit, on_machine, validate_address, positive_size, validated_size, validate_range,
  map_range, protect, unmap, protect_regions, mmap, mmap_in_hole, mmap_at_cursor, find_mmap_hole,
}
use emulite.Memory.Manager.Table.{protect_regions-IsTable}
use emulite.Memory.Manager.Sound.{
  Keeps, Post-bind, Keeps-then, retable, on_machine-Keeps, validate_address-Post,
  positive_size-Post, validated_size-Post, validate_range-Post, raise_if-Post, carve-Keeps,
  map_range-Keeps, IsSpan,
}

module _ (be : Backend) (ps : ℕ) where
  abbrev pub UnitOf : {A : Type 0} → A → Type 0
  UnitOf _ = Unit

  protect_regions-Keeps :
      (lo hi perms : ℕ)
      → lo % page_size ≡ 0
      → hi % page_size ≡ 0
      → lo < hi
      → hi ≤ address_limit be ps
      → Keeps be ps (modify (λ s. record s { regions = protect_regions lo hi perms s.regions }))
  protect_regions-Keeps lo hi perms a b o f = record {
    at = λ s v. (
      retable be ps s (protect_regions lo hi perms s.regions) v
          (protect_regions-IsTable (address_limit be ps) lo hi perms s.regions a b o f v.table),
      tt,
    );
  }

  -- the pages that a range touches
  abbrev start_of : ℕ → ℕ
  start_of a = page_align_down a

  abbrev span_of : ℕ → ℕ → ℕ
  span_of a n = page_align_up (n + (a - start_of a))

  pub protect-Keeps :
      (address size : ℤ) (perms : ℕ) → Keeps be ps (protect be ps address size perms)
  unfolding protect
  protect-Keeps address size perms =
      Post-bind be ps (λ n. n < address_limit be ps) UnitOf (validate_address be ps address) _
        (validate_address-Post be ps address)
        λ a small.
          Post-bind be ps (λ n. 0 < n) UnitOf (positive_size be ps size) _
            (positive_size-Post be ps size)
            λ n p.
              let lo = start_of a in
              let span = span_of a n in
              let down = page_align_down_bounds a in
              let up = page_align_up_bounds (n + (a - lo)) in
              Post-bind be ps (λ _. lo + span ≤ address_limit be ps) UnitOf
                (validate_range be ps lo span) _ (validate_range-Post be ps lo span)
                λ _ fits.
                  Keeps-then be ps UnitOf (on_machine be ps (be.mem_protect lo span perms)) _
                    (on_machine-Keeps be ps (be.mem_protect lo span perms))
                    (protect_regions-Keeps lo (lo + span) perms down.2 (omega (arith, down, up))
                      (omega (arith, up)) fits)

  pub unmap-Keeps : (address size : ℤ) → Keeps be ps (unmap be ps address size)
  unfolding unmap
  unmap-Keeps address size =
      Post-bind be ps (λ n. n < address_limit be ps) UnitOf (validate_address be ps address) _
        (validate_address-Post be ps address)
        λ a small.
          Post-bind be ps (λ n. 0 < n) UnitOf (positive_size be ps size) _
            (positive_size-Post be ps size)
            λ n p.
              let lo = start_of a in
              let span = span_of a n in
              let down = page_align_down_bounds a in
              let up = page_align_up_bounds (n + (a - lo)) in
              Post-bind be ps (λ _. lo + span ≤ address_limit be ps) UnitOf
                (validate_range be ps lo span) _ (validate_range-Post be ps lo span)
                λ _ fits.
                  Keeps-then be ps UnitOf (on_machine be ps (be.mem_unmap lo span)) _
                    (on_machine-Keeps be ps (be.mem_unmap lo span))
                    (carve-Keeps be ps lo (lo + span) down.2 (omega (arith, down, up))
                      (omega arith))

  pub pure-Keeps : {A : Type 0} (a : A) → Keeps be ps (pure a)
  pure-Keeps a = record { at = λ s v. (v, tt) }

  -- the cursor of the arena moves up by whole pages, and not past its end
  IsCursor : ℕ → Type 0
  IsCursor c = (mmap_base ≤ c) × (c ≤ lib_base) × (c % page_size ≡ 0)

  move_cursor-Keeps :
      (c : ℕ) → IsCursor c → Keeps be ps (modify (λ s. record s { mmap_cursor = c }))
  unfolding IsCursor
  move_cursor-Keeps c b = record {
    at = λ s v. (
      record { table = v.table; arena = b; libs = v.libs; break = v.break; poisons = v.poisons },
      tt,
    );
  }

  mmap_at_cursor-Keeps :
      (need perms : ℕ) (label : String)
      → IsSpan be ps need
      → Keeps be ps (mmap_at_cursor be ps need perms label)
  unfolding mmap_at_cursor IsCursor
  mmap_at_cursor-Keeps need perms label span =
      Post-bind be ps IsCursor UnitOf (gets (λ s. s.mmap_cursor)) _
        (record { at = λ s v. (v, v.arena) })
        λ base c.
          Post-bind be ps (λ _. ltb lib_base (base + need) ≡ false) UnitOf
            (raise_if (ltb lib_base (base + need)) crashed) _ (raise_if-Post be ps _ crashed)
            λ _ room.
              Keeps-then be ps UnitOf (modify (λ s. record s { mmap_cursor = base + need })) _
                (move_cursor-Keeps (base + need)
                  (omega (arith, c), ground arith, omega (arith, c, span)))
                (Keeps-then be ps UnitOf (map_range be ps (pos base) (pos need) perms label false) _
                  (map_range-Keeps be ps (pos base) (pos need) perms label false) (pure-Keeps base))

  mmap_in_hole-Keeps :
      (need perms : ℕ) (label : String) (hole : Option ℕ)
      → IsSpan be ps need
      → Keeps be ps (mmap_in_hole be ps need perms label hole)
  unfolding mmap_in_hole
  mmap_in_hole-Keeps need perms label none span = mmap_at_cursor-Keeps need perms label span
  mmap_in_hole-Keeps need perms label (some h) span =
      Keeps-then be ps UnitOf (map_range be ps (pos h) (pos need) perms label false) _
        (map_range-Keeps be ps (pos h) (pos need) perms label false) (pure-Keeps h)

  pub mmap-Keeps :
      (size : ℤ) (perms : ℕ) (label : String) → Keeps be ps (mmap be ps size perms label)
  unfolding mmap
  mmap-Keeps size perms label =
      Post-bind be ps (IsSpan be ps) UnitOf (validated_size be ps size) _
        (validated_size-Post be ps size)
        λ need span.
          Post-bind be ps UnitOf UnitOf (gets (λ s. find_mmap_hole need s.mmap_cursor s.regions)) _
            (record { at = λ s v. (v, tt) }) λ hole _. mmap_in_hole-Keeps need perms label hole span
