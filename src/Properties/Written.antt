-- ===== src/Properties/Written.antt =====
-- src/emulite/android/bionic_property_area.py: what `_write_info` leaves.
use emulite.Base.{
  ℕ, ◌+◌, ◌-◌, ◌≤◌, ◌<◌, ◌≡◌, refl, inl, inr, true, false, some, List, length, ltb, arith, lt_cases,
}
use emulite.Guest.{GuestMemory, write_u32}
use emulite.Properties.{
  PropertyArea, region_bytes, align4, align8, info_bytes, leaf_of, write_leaf_bt, write_record,
  write_info,
}
use emulite.Properties.Held.{Kept, then-Kept, write_u32-Kept, Stored, Stored-Kept, lower-Stored}
use emulite.Properties.Record.{
  align4_bounds, align8_bounds, length-info_bytes, write_record-Stored, write_record-Kept,
  write_leaf_bt-Kept,
}
use mathlib.Core.Option.{some-injective, none-ne-some}
use mathlib.Core.Path.{subst}

-- the records stand behind the header of the area
pub record Inside (a : PropertyArea) : Type 0 where
  pub behind_header : 128 ≤ a.cursor

module _ (g : GuestMemory) where
  -- what `_write_info` has done: the record, the area and the memory
  pub record Written (name value : List ℕ) (a : PropertyArea) (m : g.Memory)
      (r : ℕ × PropertyArea × g.Memory) : Type 0 where
    pub same_base : r.1.base ≡ a.base
    pub same_infos : r.1.infos ≡ a.infos
    pub grown : a.cursor ≤ r.1.cursor
    pub kept : Kept g (a.base + 128) (a.base + a.cursor) m r.2
    pub stored : Stored g (a.base + 128) (a.base + r.1.cursor) r.0 name value r.2

  placed-Written :
      (name value : List ℕ) (a : PropertyArea) (m : g.Memory) (offset cursor : ℕ) (leaf : List ℕ)
      → Inside a
      → length name < region_bytes
      → a.cursor ≤ offset
      → offset + info_bytes name value ≤ cursor
      → Written name value a m (
        a.base + offset,
        record a { cursor = cursor },
        write_u32 g a.base (cursor - 128) (
            write_record g
              (a.base + offset)
              name
              value
              (write_leaf_bt g a.base a.cursor offset leaf m)),
      )
  placed-Written name value a m offset cursor leaf inside few behind room =
      let low = a.base + 128 in
      let at = a.base + offset in
      let start = inside.behind_header in
      let m1 = write_leaf_bt g a.base a.cursor offset leaf m in
      let m2 = write_record g at name value m1 in
      let m3 = write_u32 g a.base (cursor - 128) m2 in
      let last : (high : ℕ) → Kept g low high m2 m3 =
        λ (high : ℕ). write_u32-Kept g low high a.base (cursor - 128) m2 (inr (omega arith)) in
      let old = a.base + a.cursor in
      let own =
        lower-Stored g low at (at + info_bytes name value) at name value m2 (omega arith)
          (write_record-Stored g at name value m1 few) in
      record {
        same_base = refl;
        same_infos = refl;
        grown = omega arith;
        kept =
            then-Kept g low old m m2 m3
              (then-Kept g low old m m1 m2
                (write_leaf_bt-Kept g low old a.base a.cursor offset leaf m (omega arith))
                (write_record-Kept g low old at name value m1 (omega arith)))
              (last old);
        stored =
            Stored-Kept g low (at + info_bytes name value) (a.base + cursor) at name value m2 m3
              (omega arith) (last (at + info_bytes name value)) own;
      }

  pub write_info-Written :
      (name value : List ℕ) (a : PropertyArea) (m : g.Memory) (r : ℕ × PropertyArea × g.Memory)
      → Inside a
      → write_info g name value (a, m) ≡ some r
      → Written name value a m r
  unfolding write_info
  write_info-Written name value a m r inside e =
      let leaf = leaf_of name in
      let offset = align4 (a.cursor + 20 + length leaf + 1) in
      let cursor = align8 (offset + info_bytes name value) in
      let at = align4_bounds (a.cursor + 20 + length leaf + 1) in
      let end = align8_bounds (offset + info_bytes name value) in
      elim (lt_cases region_bytes cursor) [
        | inl full ↦
            let over : ltb region_bytes cursor ≡ true = ground arith in
            absurd (none-ne-some _ (rw over at e))
        | inr room ↦
            let fits : ltb region_bytes cursor ≡ false = ground arith in
            let long = length-info_bytes name value in
            let few : length name < region_bytes = omega (arith, end.0) in
            subst (λ r'. Written name value a m r') (some-injective _ _ (rw fits at e))
              (placed-Written name value a m offset cursor leaf inside few (omega (arith, at))
                end.0)
      ]
