-- ===== src/SvcTrap/Slots.antt =====
-- The table of slots: which are free, and what taking and freeing one does.
use emulite.Base.{
  ℕ, suc, ◌+◌, ◌-◌, ◌/◌, ◌%◌, ◌≤◌, ◌<◌, ◌≡◌, ◌≢◌, refl, ap, Bool, true, false, not, ◌||◌, Option,
  none, some, List, [], ◌∷◌, ◌++◌, length, get_elem?, ltb, ◌==◌, if◌then◌else◌, arith, Bool-cases,
  Option-cases, inl, inr, length-append,
}
use mathlib.Core.Path.{subst}
use emulite.SvcTrap.{
  SvcTrap, init, set, take_from, take_slot, slot_at, free_slot, address_of, max_slots,
  trampoline_base,
}
use emulite.SvcTrap.Places.{get-set, length-set, get-last, get_inside, get_end, get_below}

-- none of them is the immediate
abbrev pub NotIn : ℕ → List ℕ → Type 0
NotIn imm [] = Unit
NotIn imm (free ∷ rest) = (imm ≢ free) × NotIn imm rest

-- what `_free_slots` lists: empty slots, each once
abbrev pub Frees : List (Option ℕ) → List ℕ → Type 0
Frees slots [] = Unit
Frees slots (imm ∷ rest) =
    (0 < imm) × (get_elem? slots imm ≡ some none) × NotIn imm rest × Frees slots rest

-- `_free_slots` lists the slot
abbrev pub is_listed : ℕ → List ℕ → Bool
is_listed imm [] = false
is_listed imm (free ∷ rest) = imm == free || is_listed imm rest

pub record IsValid (t : SvcTrap) : Type 0 where
  pub first : get_elem? t.slots 0 ≡ some none
  pub short : length t.slots ≤ suc max_slots
  pub frees : Frees t.slots t.free_slots
  -- a slot that was given back is listed
  pub listed :
      (imm : ℕ) → 0 < imm → get_elem? t.slots imm ≡ some none → is_listed imm t.free_slots ≡ true

pub init-IsValid : IsValid init
init-IsValid = record {
  first = refl;
  short = omega arith;
  frees = tt;
  listed = λ imm p e. absurd (ground (arith, get-last [] imm none, p, e));
}

Frees-set :
    (l : List (Option ℕ)) (i : ℕ) (v : Option ℕ) (frees : List ℕ)
    → i < length l
    → NotIn i frees
    → Frees l frees
    → Frees (set l i v) frees
Frees-set l i v [] h n f = tt
Frees-set l i v (free ∷ rest) h n f =
    (f.0, ground (arith, get-set l i free v h), f.2, Frees-set l i v rest h n.1 f.3)

Frees-last :
    (l : List (Option ℕ)) (v : Option ℕ) (frees : List ℕ)
    → Frees l frees
    → Frees (l ++ v ∷ []) frees
Frees-last l v [] f = tt
Frees-last l v (free ∷ rest) f =
    let below = get_inside l free none f.1 in
    (f.0, ground (arith, get-last l free v), f.2, Frees-last l v rest f.3)

-- an immediate that is taken is not listed as free
taken_NotIn :
    (l : List (Option ℕ)) (i h : ℕ) (frees : List ℕ)
    → get_elem? l i ≡ some (some h)
    → Frees l frees
    → NotIn i frees
taken_NotIn l i h [] e f = tt
taken_NotIn l i h (free ∷ rest) e f = (
  λ same. absurd (ground (arith, e, f.1, ap (λ (k : ℕ). get_elem? l k) same)),
  taken_NotIn l i h rest e f.3,
)

-- What a taken slot is: one that was empty, in range, and alone has changed.
pub record Taken (handler : ℕ) (t : SvcTrap) (imm : ℕ) (t' : SvcTrap) : Type 0 where
  pub range : (0 < imm) × (imm ≤ max_slots)
  pub was_empty : slot_at imm t ≡ none
  pub after : (j : ℕ) → slot_at j t' ≡ (if j == imm then some handler else slot_at j t)
  pub valid : IsValid t'

nonempty : (l : List (Option ℕ)) → get_elem? l 0 ≡ some none → 0 < length l
nonempty l e = get_inside l 0 none e

take_free :
    (handler imm : ℕ) (rest : List ℕ) (t : SvcTrap)
    → IsValid t
    → t.free_slots ≡ imm ∷ rest
    → Taken handler t imm (record { slots = set t.slots imm (some handler); free_slots = rest })
take_free handler imm rest t v e =
    let f : Frees t.slots (imm ∷ rest) = subst (Frees t.slots) e v.frees in
    let below = get_inside t.slots imm none f.1 in
    record {
      range = (f.0, omega (arith, v.short));
      was_empty = rw (f.1, slot_at) refl;
      after = λ j. ground (arith, get-set t.slots imm j (some handler) below);
      valid = record {
        first = ground (arith, get-set t.slots imm 0 (some handler) below, v.first, f.0);
        short = omega (arith, length-set t.slots imm (some handler), v.short);
        frees = Frees-set t.slots imm (some handler) rest below f.2 f.3;
        listed = λ j p g. ground (
          arith,
          get-set t.slots imm j (some handler) below,
          v.listed j p,
          ap (is_listed j) e,
          g,
        );
      };
    }

take_new :
    (handler : ℕ) (t : SvcTrap)
    → IsValid t
    → length t.slots ≤ max_slots
    → Taken handler t (length t.slots) (record t { slots = t.slots ++ some handler ∷ [] })
take_new handler t v room =
    let some_slots = nonempty t.slots v.first in
    record {
      range = (some_slots, room);
      was_empty = rw (get_end t.slots, slot_at) refl;
      after = λ j. ground (arith, get-last t.slots j (some handler));
      valid = record {
        first = ground (arith, get-last t.slots 0 (some handler), v.first);
        short = omega (arith, length-append t.slots (some handler ∷ []));
        frees = Frees-last t.slots (some handler) t.free_slots v.frees;
        listed = λ j p g. ground (arith, get-last t.slots j (some handler), v.listed j p, g);
      };
    }

-- a slot is taken, or 512 are
abbrev pub TakenOrFull : ℕ → SvcTrap → Option (ℕ × SvcTrap) → Type 0
TakenOrFull handler t none = (t.free_slots ≡ []) × (length t.slots ≡ suc max_slots)
TakenOrFull handler t (some (imm, t')) = Taken handler t imm t'

take_from-TakenOrFull :
    (handler : ℕ) (frees : List ℕ) (t : SvcTrap)
    → IsValid t
    → t.free_slots ≡ frees
    → TakenOrFull handler t (take_from handler frees t)
unfolding take_from
take_from-TakenOrFull handler (imm ∷ rest) t v e = take_free handler imm rest t v e
take_from-TakenOrFull handler [] t v e = elim (Bool-cases (ltb max_slots (length t.slots))) [
  | inl full ↦ rw full (e, ground (arith, v.short))
  | inr room ↦ rw room (take_new handler t v (ground arith))
]

pub take_slot-TakenOrFull :
    (handler : ℕ) (t : SvcTrap) → IsValid t → TakenOrFull handler t (take_slot handler t)
unfolding take_slot
take_slot-TakenOrFull handler t v = take_from-TakenOrFull handler t.free_slots t v refl

-- in a table without room every slot is taken
pub all_taken :
    (imm : ℕ) (t : SvcTrap)
    → IsValid t
    → t.free_slots ≡ []
    → length t.slots ≡ suc max_slots
    → 0 < imm
    → imm ≤ max_slots
    → (handler : ℕ) × (slot_at imm t ≡ some handler)
all_taken imm t v none_free full p q =
    let (slot, e) = get_below t.slots imm (omega (arith, full)) in taken_or_listed slot e
  where
    taken_or_listed :
        (slot : Option ℕ)
        → get_elem? t.slots imm ≡ some slot
        → (handler : ℕ) × (slot_at imm t ≡ some handler)
    taken_or_listed none e = absurd (ground (arith, v.listed imm p e, ap (is_listed imm) none_free))
    taken_or_listed (some handler) e = (handler, rw (e, slot_at) refl)

taken_slot :
    (imm handler : ℕ) (t : SvcTrap)
    → slot_at imm t ≡ some handler
    → get_elem? t.slots imm ≡ some (some handler)
taken_slot imm handler t e = elim (Option-cases (get_elem? t.slots imm)) [
  | inl f ↦ absurd (ground (arith, e, f))
  | inr (slot, f) ↦ ground (arith, e, f)
]

-- What freeing has done: a slot that was taken is empty, and nothing else has changed.
pub record Freed (addr : ℕ) (t t' : SvcTrap) : Type 0 where
  pub imm : ℕ
  pub handler : ℕ
  pub at : (0 < imm) × (addr ≡ address_of imm)
  pub was_taken : slot_at imm t ≡ some handler
  pub after : (j : ℕ) → slot_at j t' ≡ (if j == imm then none else slot_at j t)
  pub valid : IsValid t'

abbrev pub FreedOrNot : ℕ → SvcTrap → Option SvcTrap → Type 0
FreedOrNot addr t none = Unit
FreedOrNot addr t (some t') = Freed addr t t'

pub free_slot-FreedOrNot :
    (addr : ℕ) (t : SvcTrap) → IsValid t → FreedOrNot addr t (free_slot addr t)
unfolding free_slot
free_slot-FreedOrNot addr t v =
    let imm = (addr - trampoline_base) / 8 + 1 in
    elim (Bool-cases (ltb addr trampoline_base || not ((addr - trampoline_base) % 8 == 0))) [
      | inl bad ↦ rw bad tt
      | inr good ↦ elim (Option-cases (slot_at imm t)) [
        | inl e ↦ rw (good, e) tt
        | inr (handler, e) ↦
            let taken = taken_slot imm handler t e in
            let below = get_inside t.slots imm (some handler) taken in
            rw (good, e)
              (record {
                imm = imm;
                handler = handler;
                at = ground arith;
                was_taken = e;
                after = λ j. ground (arith, get-set t.slots imm j none below);
                valid = record {
                  first = ground (arith, get-set t.slots imm 0 none below, v.first);
                  short = omega (arith, length-set t.slots imm none, v.short);
                  frees = (
                    omega arith,
                    ground (arith, get-set t.slots imm imm none below),
                    taken_NotIn t.slots imm handler t.free_slots taken v.frees,
                    Frees-set t.slots imm none t.free_slots below
                        (taken_NotIn t.slots imm handler t.free_slots taken v.frees) v.frees,
                  );
                  listed =
                      λ j p g. ground (arith, get-set t.slots imm j none below, v.listed j p, g);
                };
              })
      ]
    ]
