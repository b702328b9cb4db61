-- ===== src/Properties/Session.antt =====
-- src/emulite/android/bionic_property_area.py: what calls of `intern` and `invalidate`, one after another, leave.
use emulite.Base.{
  ℕ, ◌+◌, ◌≤◌, ◌<◌, ◌≡◌, refl, sym, ◌∙◌, inl, inr, true, none, some, List, [], ◌∷◌, length, ◌==◌,
  arith, Option-cases,
}
use emulite.Guest.{GuestMemory}
use emulite.Guest.Text.{max_length}
use emulite.Properties.{
  PropertyArea, find_name, contains_info, write_info, intern, invalidate, value_place, read,
}
use emulite.Properties.Held.{serial_of, NoNul, Held-read_cstr_bytes, Stored, Stored-Kept}
use mathlib.Core.Option.{some-injective, none-ne-some}
use emulite.Properties.Written.{Inside, Written, write_info-Written}
use mathlib.Core.Path.{subst}

-- a call, and what it leaves: a `MemoryError` changes nothing
pub data Call : Type 0 where
  intern_value : List ℕ → List ℕ → Call
  invalidate_name : List ℕ → Call

module _ (g : GuestMemory) where
  unfoldable pub call : Call → PropertyArea × g.Memory → PropertyArea × g.Memory
  unfolding intern invalidate
  call (intern_value name value) (a, m) = elim (intern g name value (a, m)) [
    | none ↦ (a, m)
    | some (info, a', m') ↦ (a', m')
  ]
  call (invalidate_name name) (a, m) = (invalidate name a, m)

  unfoldable pub run : List Call → PropertyArea × g.Memory → PropertyArea × g.Memory
  unfolding call
  run [] s = s
  run (c ∷ calls) s = run calls (call c s)

  -- a record of the area
  record Alive (info : ℕ) (name value : List ℕ) (s : PropertyArea × g.Memory) : Type 0 where
    inside : Inside s.0
    known : contains_info info s.0.infos ≡ true
    stored : Stored g (s.0.base + 128) (s.0.base + s.0.cursor) info name value s.1

  known-∷ :
      (info other : ℕ) (infos : List ℕ)
      → contains_info info infos ≡ true
      → contains_info info (other ∷ infos) ≡ true
  known-∷ info other infos e = ground (arith, e)

  -- `intern` after `_write_info`
  abbrev registered : List ℕ → ℕ × PropertyArea × g.Memory → PropertyArea × g.Memory
  registered name (info, a, m) =
      (record a { by_name = (name, info) ∷ a.by_name; infos = info ∷ a.infos }, m)

  registered-Alive :
      (name value : List ℕ) (a : PropertyArea) (m : g.Memory) (r : ℕ × PropertyArea × g.Memory)
      → Inside a
      → Written g name value a m r
      → Alive r.0 name value (registered name r)
  registered-Alive name value a m (info, a', m') inside w =
      let start = inside.behind_header in
      let more = w.grown in
      let same : (info == info) ≡ true = ground arith in
      record {
        inside = record { behind_header = omega arith };
        known = rw same refl;
        stored = rw w.same_base w.stored;
      }

  others-Alive :
      (name value new_name new_value : List ℕ) (info : ℕ) (a : PropertyArea) (m : g.Memory)
      (r : ℕ × PropertyArea × g.Memory)
      → Written g new_name new_value a m r
      → Alive info name value (a, m)
      → Alive info name value (registered new_name r)
  others-Alive name value new_name new_value info a m (new, a', m') w alive =
      let start = alive.inside.behind_header in
      let more = w.grown in
      record {
        inside = record { behind_header = omega arith };
        known = known-∷ info new a'.infos (rw w.same_infos alive.known);
        stored = rw w.same_base (
            Stored-Kept g (a.base + 128) (a.base + a.cursor) (a.base + a'.cursor) info name value m
              m' (omega arith) w.kept alive.stored);
      }

  call-Alive :
      (c : Call) (info : ℕ) (name value : List ℕ) (s : PropertyArea × g.Memory)
      → Alive info name value s
      → Alive info name value (call c s)
  unfolding call intern invalidate
  call-Alive (invalidate_name other) info name value (a, m) alive = record {
    inside = record { behind_header = alive.inside.behind_header };
    known = alive.known;
    stored = alive.stored;
  }
  call-Alive (intern_value other new_value) info name value (a, m) alive =
      elim (Option-cases (find_name other a.by_name)) [
        | inr (old, e) ↦ rw (e, call, intern) alive
        | inl e ↦ elim (Option-cases (write_info g other new_value (a, m))) [
          | inl full ↦ rw (e, full, call, intern) alive
          | inr (r, e') ↦
              rw (e, e', call, intern)
                ((others-Alive name value other new_value info a m r
                  (write_info-Written g other new_value a m r alive.inside e') alive))
        ]
      ]

  run-Alive :
      (calls : List Call) (info : ℕ) (name value : List ℕ) (s : PropertyArea × g.Memory)
      → Alive info name value s
      → Alive info name value (run calls s)
  unfolding run
  run-Alive [] info name value s alive = alive
  run-Alive (c ∷ calls) info name value s alive =
      run-Alive calls info name value (call c s) (call-Alive c info name value s alive)

  intern-Alive :
      (name value : List ℕ) (a a' : PropertyArea) (m m' : g.Memory) (info : ℕ)
      → Inside a
      → find_name name a.by_name ≡ none
      → intern g name value (a, m) ≡ some (info, a', m')
      → Alive info name value (a', m')
  unfolding intern
  intern-Alive name value a a' m m' info inside fresh e =
      let failed : find_name name a.by_name ≡ none
          → write_info g name value (a, m) ≡ none
          → intern g name value (a, m) ≡ none =
        λ f w. rw (f, w, intern) refl in
      let made : (r : ℕ × PropertyArea × g.Memory)
          → find_name name a.by_name ≡ none
          → write_info g name value (a, m) ≡ some r
          → intern g name value (a, m) ≡ some (r.0, (registered name r).0, (registered name r).1) =
        λ r f w. rw (f, w, intern) refl in
      elim (Option-cases (write_info g name value (a, m))) [
        | inl full ↦ absurd (none-ne-some _ (sym (failed fresh full) ∙ e))
        | inr (r, e') ↦
            subst (λ (t : ℕ × PropertyArea × g.Memory). Alive t.0 name value (t.1, t.2))
              (some-injective _ _ (sym (made r fresh e') ∙ e))
              (registered-Alive name value a m r inside
                (write_info-Written g name value a m r inside e'))
      ]

  Alive-read :
      (info : ℕ) (name value : List ℕ) (s : PropertyArea × g.Memory)
      → Alive info name value s
      → NoNul name
      → NoNul value
      → length name < max_length
      → length value < max_length
      → read g info s ≡ some (name, value, serial_of value)
  unfolding read
  Alive-read info name value (a, m) alive name_text value_text name_short value_short =
      let n =
        Held-read_cstr_bytes g (info + 96) name m alive.stored.name_held name_text name_short in
      let v =
        Held-read_cstr_bytes g (value_place g info m) value m alive.stored.value_held value_text
          value_short in
      rw (alive.known, n, v, alive.stored.serial_held) refl

  -- A name that has no record, and its value, both without a NUL and shorter than 0x10000 bytes, are
  -- read back from the record that `intern` gives, whatever is interned and invalidated after that.
  -- The serial read with them is, in 32 bits, the value's length above bit 24, with bit 16 set for a
  -- value of 92 bytes or more.
  pub intern-run-read :
      (name value : List ℕ) (calls : List Call) (a a' : PropertyArea) (m m' : g.Memory) (info : ℕ)
      → NoNul name
      → NoNul value
      → length name < max_length
      → length value < max_length
      → 128 ≤ a.cursor
      → find_name name a.by_name ≡ none
      → intern g name value (a, m) ≡ some (info, a', m')
      → let s = run calls (a', m') in read g info s ≡ some (name, value, serial_of value)
  intern-run-read name value calls a a' m m' info name_text value_text name_short value_short behind
        fresh e =
      let inside : Inside a = record { behind_header = behind } in
      Alive-read info name value (run calls (a', m'))
        (run-Alive calls info name value (a', m')
          (intern-Alive name value a a' m m' info inside fresh e))
        name_text value_text name_short value_short
