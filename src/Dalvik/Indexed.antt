-- ===== src/Dalvik/Indexed.antt =====
-- The well-formed tables of identifiers, and a new member in them.
use emulite.Base.{
  ℕ, ◌<◌, ◌≡◌, refl, ap, sym, ◌∙◌, Option, none, some, [], ◌∷◌, ◌++◌, Bool, true, false, ◌&&◌,
  if◌then◌else◌, arith, Bool-cases, inl, inr, ◌⊎◌,
}
use emulite.Base.Dict.{lookup}
use emulite.Base.Keyed.{lookup-insert_self, lookup-insert_ne, lookup-insert_cases}
use mathlib.Core.Option.{some-injective, none-ne-some}
use emulite.Base.Text.{same_text_self, same_text_eq}
use emulite.Dalvik.Members.{
  Kind, java_method, java_field, Key, Member, Index, MemberTable, same_key, get_index, index_of,
  enter_member,
}

pub same_key_self : (k : Key) → same_key k k ≡ true
same_key_self k =
    ground (arith, same_text_self k.class_name, same_text_self k.name, same_text_self k.signature)

pub same_key_eq : (j k : Key) → same_key j k ≡ true → j ≡ k
same_key_eq j k h =
    rw
      (
        same_text_eq j.class_name k.class_name (ground (arith, h)),
        same_text_eq j.name k.name (ground (arith, h)),
        same_text_eq j.signature k.signature (ground (arith, h)),
      )
      refl

abbrev pub or_new : Bool → ℕ → Option ℕ → Option ℕ
or_new same id (some old) = some old
or_new same id none = if same then some id else none

get_index-append :
    (k j : Key) (id : ℕ) (index : Index)
    → get_index j (index ++ (k, id) ∷ []) ≡ or_new (same_key k j) id (get_index j index)
get_index-append k j id [] = refl
get_index-append k j id ((i, n) ∷ index) = elim (Bool-cases (same_key i j)) [
  | inl e ↦ rw e refl
  | inr e ↦ rw e (get_index-append k j id index)
]

-- Each identifier names one member, which is found again by its kind, its class, its name and its
-- signature, and by its object; an entry of an index leads to such a member; and identifiers and
-- identities of members are below the next ones.
pub record IsIndexed (t : MemberTable) : Type 0 where
  pub named :
      (id : ℕ) (m : Member)
      → lookup id t.members ≡ some m
      → get_index m.key (index_of m.kind t) ≡ some id
  pub found :
      (kind : Kind) (k : Key) (id : ℕ)
      → get_index k (index_of kind t) ≡ some id
      → (m : Member) × (lookup id t.members ≡ some m) × (m.kind ≡ kind) × (m.key ≡ k)
  pub known :
      (id : ℕ) (m : Member)
      → lookup id t.members ≡ some m
      → lookup m.identity t.member_ids ≡ some id
  pub below :
      (id : ℕ) (m : Member)
      → lookup id t.members ≡ some m
      → (id < t.next_id) × (m.identity < t.next_identity)

abbrev pub same_kind : Kind → Kind → Bool
same_kind java_method java_method = true
same_kind java_field java_field = true
same_kind java_method java_field = false
same_kind java_field java_method = false

pub same_kind_self : (k : Kind) → same_kind k k ≡ true
same_kind_self java_method = refl
same_kind_self java_field = refl

same_kind_eq : (j k : Kind) → same_kind j k ≡ true → j ≡ k
same_kind_eq java_method java_method h = refl
same_kind_eq java_field java_field h = refl
same_kind_eq java_method java_field h = absurd (ground (arith, h))
same_kind_eq java_field java_method h = absurd (ground (arith, h))

or_new-false : (id : ℕ) (o : Option ℕ) → or_new false id o ≡ o
or_new-false id none = refl
or_new-false id (some old) = refl

-- the indices of a table with one more member
pub get_entered :
    (kind j : Kind) (key k : Key) (is_static : Bool) (t : MemberTable)
    → get_index k (index_of j (enter_member kind key is_static t))
      ≡ or_new (same_kind kind j && same_key key k) t.next_id (get_index k (index_of j t))
unfolding enter_member
get_entered java_method java_method key k is_static t =
    get_index-append key k t.next_id t.method_index
get_entered java_field java_field key k is_static t = get_index-append key k t.next_id t.field_index
get_entered java_method java_field key k is_static t =
    sym (or_new-false t.next_id (get_index k t.field_index))
get_entered java_field java_method key k is_static t =
    sym (or_new-false t.next_id (get_index k t.method_index))

abbrev entered : Kind → Key → Bool → MemberTable → Member
entered kind key is_static t = record {
  kind = kind;
  key = key;
  is_static = is_static;
  native_addr = 0;
  identity = t.next_identity;
}

-- where an entry of the indices comes from
from_index :
    (b : Bool) (new id : ℕ) (o : Option ℕ)
    → or_new b new o ≡ some id
    → (o ≡ some id) ⊎ ((b ≡ true) × (new ≡ id))
from_index b new id (some old) e = inl e
from_index true new id none e = inr (refl, some-injective new id e)
from_index false new id none e = absurd (none-ne-some id e)

pub enter_member-IsIndexed :
    (kind : Kind) (key : Key) (is_static : Bool) (t : MemberTable)
    → get_index key (index_of kind t) ≡ none
    → IsIndexed t
    → IsIndexed (enter_member kind key is_static t)
unfolding enter_member
enter_member-IsIndexed kind key is_static t absent v =
    let m = entered kind key is_static t in
    record {
      named = λ id p e. elim (lookup-insert_cases t.next_id id m p t.members e) [
        | inl (same, it) ↦
            rw (← same, ← it)
              (get_entered kind kind key key is_static t
                ∙ ground (arith, absent, same_kind_self kind, same_key_self key))
        | inr (other, there) ↦
            get_entered kind (p.kind) key (p.key) is_static t
            ∙ ap (or_new (same_kind kind p.kind && same_key key p.key) t.next_id)
                (v.named id p there)
      ];
      found = λ j k id e.
          elim (from_index (same_kind kind j && same_key key k) t.next_id id
            (get_index k (index_of j t)) (sym (get_entered kind j key k is_static t) ∙ e)) [
              | inl old ↦
                  let (p, at, kind_same, key_same) = v.found j k id old in
                  let low = v.below id p at in
                  (
                    p,
                    lookup-insert_ne t.next_id id m t.members (λ q. omega (arith, q, low.0)) ∙ at,
                    kind_same,
                    key_same,
                  )
              | inr (b, it) ↦ (
                m,
                rw (← it) (lookup-insert_self t.next_id m t.members),
                same_kind_eq kind j (ground (arith, b)),
                same_key_eq key k (ground (arith, b)),
              )
            ];
      known = λ id p e. elim (lookup-insert_cases t.next_id id m p t.members e) [
        | inl (same, it) ↦
            rw (← same, ← it) (lookup-insert_self t.next_identity t.next_id t.member_ids)
        | inr (other, there) ↦
            let low = v.below id p there in
            lookup-insert_ne t.next_identity p.identity t.next_id t.member_ids
              (λ q. omega (arith, q, low.1))
            ∙ v.known id p there
      ];
      below = λ id p e. elim (lookup-insert_cases t.next_id id m p t.members e) [
        | inl (same, it) ↦ rw (← same, ← it) (omega arith, omega arith)
        | inr (other, there) ↦
            let low = v.below id p there in (omega (arith, low.0), omega (arith, low.1))
      ];
    }
