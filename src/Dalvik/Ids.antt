-- ===== src/Dalvik/Ids.antt =====
-- Any calls on the identifiers of methods and fields, in any order.
use emulite.Base.{
  ℕ, ◌≡◌, refl, ap, sym, ◌∙◌, Option, none, some, List, [], ◌∷◌, Bool, false, ◌&&◌, ◌==◌,
  Bool-cases, Option-cases, eq_cases, inl, inr,
}
use emulite.Base.Dict.{Dict, lookup, insert}
use emulite.Base.Keyed.{lookup-insert_self, lookup-insert_ne, lookup-insert_cases}
use mathlib.Core.Option.{some-injective, none-ne-some}
use emulite.Base.Text.{Text, same_text}
use emulite.Dalvik.Members.{
  Kind, java_method, java_field, Key, Member, MemberTable, init, get_index, index_of, find_member,
  method_id, set_native, unregistered, unregister_in, unregister_natives, is_method,
}
use emulite.Dalvik.Indexed.{IsIndexed, enter_member-IsIndexed}

find_member-IsIndexed :
    (kind : Kind) (key : Key) (is_static : Bool) (t : MemberTable)
    → IsIndexed t
    → IsIndexed (find_member kind key is_static t).1
unfolding find_member
find_member-IsIndexed kind key is_static t v =
    elim (Option-cases (get_index key (index_of kind t))) [
      | inl e ↦ rw (e, find_member) (enter_member-IsIndexed kind key is_static t e v)
      | inr (id, e) ↦ rw (e, find_member) v
    ]

-- all of a member but its native address
abbrev SameMember : Member → Member → Type 0
SameMember m n = (m.kind ≡ n.kind) × (m.key ≡ n.key) × (m.identity ≡ n.identity)

-- tables that differ in native addresses
record Revalued (d d' : Dict Member) : Type 0 where
  back :
      (id : ℕ) (m' : Member)
      → lookup id d' ≡ some m'
      → (m : Member) × (lookup id d ≡ some m) × SameMember m m'
  forth :
      (id : ℕ) (m : Member)
      → lookup id d ≡ some m
      → (m' : Member) × (lookup id d' ≡ some m') × SameMember m m'

pub index_same :
    (kind : Kind) (d' : Dict Member) (t : MemberTable)
    → index_of kind (record t { members = d' }) ≡ index_of kind t
index_same java_method d' t = refl
index_same java_field d' t = refl

Revalued-IsIndexed :
    (d' : Dict Member) (t : MemberTable)
    → Revalued t.members d'
    → IsIndexed t
    → IsIndexed (record t { members = d' })
Revalued-IsIndexed d' t r v = record {
  named = λ id m' e.
      let (m, at, same) = r.back id m' e in
      rw (← same.0, ← same.1, index_same (m.kind) d' t) (v.named id m at);
  found = λ kind k id e.
      let (m, at, kind_same, key_same) =
        v.found kind k id (sym (ap (get_index k) (index_same kind d' t)) ∙ e) in
      let (m', at', same) = r.forth id m at in
      (m', at', sym same.0 ∙ kind_same, sym same.1 ∙ key_same);
  known = λ id m' e. let (m, at, same) = r.back id m' e in rw (← same.2) (v.known id m at);
  below = λ id m' e. let (m, at, same) = r.back id m' e in rw (← same.2) (v.below id m at);
}

-- a native address set
Revalued-insert :
    (id addr : ℕ) (m : Member) (d : Dict Member)
    → lookup id d ≡ some m
    → Revalued d (insert id (record m { native_addr = addr }) d)
Revalued-insert id addr m d at = record {
  back = λ i n e. elim (lookup-insert_cases id i (record m { native_addr = addr }) n d e) [
    | inl (same, it) ↦ (
      m,
      rw (← same) at,
      (
        ap (λ (x : Member). x.kind) it,
        ap (λ (x : Member). x.key) it,
        ap (λ (x : Member). x.identity) it,
      ),
    )
    | inr (other, there) ↦ (n, there, (refl, refl, refl))
  ];
  forth = λ i n e. elim (eq_cases id i) [
    | inl same ↦
        let it : m ≡ n = some-injective m n (sym at ∙ rw same e) in
        (
          record m { native_addr = addr },
          rw (← same) (lookup-insert_self id (record m { native_addr = addr }) d),
          (
            ap (λ (x : Member). x.kind) (sym it),
            ap (λ (x : Member). x.key) (sym it),
            ap (λ (x : Member). x.identity) (sym it),
          ),
        )
    | inr other ↦
        (n, lookup-insert_ne id i (record m { native_addr = addr }) d other ∙ e, (refl, refl, refl))
  ];
}

abbrev cleared : Text → Option Member → Option Member
cleared class_name none = none
cleared class_name (some m) = some (unregistered class_name m)

lookup-unregister_in :
    (class_name : Text) (id : ℕ) (d : Dict Member)
    → lookup id (unregister_in class_name d) ≡ cleared class_name (lookup id d)
unfolding unregister_in
lookup-unregister_in c id [] = refl
lookup-unregister_in c id ((i, m) ∷ d) = elim (Bool-cases (i == id)) [
  | inl e ↦ rw e refl
  | inr e ↦ rw e (lookup-unregister_in c id d)
]

unregistered-SameMember : (c : Text) (m : Member) → SameMember m (unregistered c m)
unregistered-SameMember c m = elim (Bool-cases (is_method m && same_text m.key.class_name c)) [
  | inl e ↦ rw e (refl, refl, refl)
  | inr e ↦ rw e (refl, refl, refl)
]

cleared-back :
    (c : Text) (o : Option Member) (m' : Member)
    → cleared c o ≡ some m'
    → (m : Member) × (o ≡ some m) × SameMember m m'
cleared-back c none m' e = absurd (none-ne-some m' e)
cleared-back c (some m) m' e =
    let it = some-injective (unregistered c m) m' e in
    (m, refl, rw (← it) (unregistered-SameMember c m))

Revalued-unregister : (c : Text) (d : Dict Member) → Revalued d (unregister_in c d)
Revalued-unregister c d = record {
  back = λ id m' e. cleared-back c (lookup id d) m' (sym (lookup-unregister_in c id d) ∙ e);
  forth = λ id m e. (
    unregistered c m,
    lookup-unregister_in c id d ∙ ap (cleared c) e,
    unregistered-SameMember c m,
  );
}

set_native-IsIndexed :
    (key : Key) (addr : ℕ) (t : MemberTable) → IsIndexed t → IsIndexed (set_native key addr t)
unfolding set_native
set_native-IsIndexed key addr t v =
    let w = find_member-IsIndexed java_method key false t v in
    let (id, t') = method_id key false t in
    elim (Option-cases (lookup id t'.members)) [
      | inl e ↦ rw (e, set_native) w
      | inr (m, e) ↦
          rw (e, set_native)
            (Revalued-IsIndexed (insert id (record m { native_addr = addr }) t'.members) t'
              (Revalued-insert id addr m t'.members e) w)
    ]

pub data Call : Type 0 where
  id_call : Kind → Key → Bool → Call
  set_native_call : Key → ℕ → Call
  unregister_call : Text → Call

unfoldable pub after : Call → MemberTable → MemberTable
after (id_call kind key is_static) t = (find_member kind key is_static t).1
after (set_native_call key addr) t = set_native key addr t
after (unregister_call class_name) t = unregister_natives class_name t

after-IsIndexed : (c : Call) (t : MemberTable) → IsIndexed t → IsIndexed (after c t)
unfolding after
after-IsIndexed (id_call kind key is_static) t v = find_member-IsIndexed kind key is_static t v
after-IsIndexed (set_native_call key addr) t v = set_native-IsIndexed key addr t v
after-IsIndexed (unregister_call c) t v =
    Revalued-IsIndexed (unregister_in c t.members) t (Revalued-unregister c t.members) v

unfoldable pub run : List Call → MemberTable → MemberTable
run [] t = t
run (c ∷ cs) t = run cs (after c t)

run-IsIndexed' : (cs : List Call) (t : MemberTable) → IsIndexed t → IsIndexed (run cs t)
unfolding run
run-IsIndexed' [] t v = v
run-IsIndexed' (c ∷ cs) t v = run-IsIndexed' cs (after c t) (after-IsIndexed c t v)

no_index : (kind : Kind) (first : ℕ) → index_of kind (init first) ≡ []
no_index java_method first = refl
no_index java_field first = refl

init-IsIndexed : (first : ℕ) → IsIndexed (init first)
init-IsIndexed first = record {
  named = λ id m e. absurd (none-ne-some m e);
  found =
      λ kind k id e. absurd (none-ne-some id (sym (ap (get_index k) (no_index kind first)) ∙ e));
  known = λ id m e. absurd (none-ne-some m e);
  below = λ id m e. absurd (none-ne-some m e);
}

-- After any identifiers asked for, native addresses set and classes unregistered, from the empty
-- tables: every identifier given out names one member, and that member is found again under that
-- identifier by its kind, class, name and signature, and by its object; every entry of an index
-- leads to such a member; and the next identifier and the next identity are new.
pub run-IsIndexed : (cs : List Call) (first : ℕ) → IsIndexed (run cs (init first))
run-IsIndexed cs first = run-IsIndexed' cs (init first) (init-IsIndexed first)
