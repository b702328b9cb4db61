-- ===== src/Dalvik/Stable.antt =====
-- What a caller who keeps an identifier can rely on.
use emulite.Base.{
  ℕ, ◌≡◌, refl, ap, ◌∙◌, some, List, [], ◌∷◌, Bool, false, ◌&&◌, arith, Option-cases, inl, inr,
}
use emulite.Base.Dict.{lookup, insert}
use emulite.Dalvik.Members.{
  Kind, java_method, Key, MemberTable, same_key, get_index, index_of, find_member, method_id,
  set_native, unregister_in,
}
use emulite.Dalvik.Indexed.{or_new, same_kind, same_kind_self, same_key_self, get_entered}
use emulite.Dalvik.Ids.{Call, id_call, set_native_call, unregister_call, after, run, index_same}

-- an identifier in an index stays there
find_keeps :
    (j : Kind) (key : Key) (is_static : Bool) (kind : Kind) (k : Key) (id : ℕ) (t : MemberTable)
    → get_index k (index_of kind t) ≡ some id
    → get_index k (index_of kind (find_member j key is_static t).1) ≡ some id
unfolding find_member
find_keeps j key is_static kind k id t h = elim (Option-cases (get_index key (index_of j t))) [
  | inl e ↦
      rw (e, find_member)
        (get_entered j kind key k is_static t
          ∙ ap (or_new (same_kind j kind && same_key key k) t.next_id) h)
  | inr (old, e) ↦ rw (e, find_member) h
]

set_keeps :
    (key : Key) (addr : ℕ) (kind : Kind) (k : Key) (id : ℕ) (t : MemberTable)
    → get_index k (index_of kind t) ≡ some id
    → get_index k (index_of kind (set_native key addr t)) ≡ some id
unfolding set_native
set_keeps key addr kind k id t h =
    let kept = find_keeps java_method key false kind k id t h in
    let (new, t') = method_id key false t in
    elim (Option-cases (lookup new t'.members)) [
      | inl e ↦ rw (e, set_native) kept
      | inr (m, e) ↦
          rw (e, set_native)
            (ap (get_index k)
                (index_same kind (insert new (record m { native_addr = addr }) t'.members) t')
              ∙ kept)
    ]

after_keeps :
    (c : Call) (kind : Kind) (k : Key) (id : ℕ) (t : MemberTable)
    → get_index k (index_of kind t) ≡ some id
    → get_index k (index_of kind (after c t)) ≡ some id
unfolding after
after_keeps (unregister_call c) kind k id t h =
    ap (get_index k) (index_same kind (unregister_in c t.members) t) ∙ h
after_keeps (set_native_call key addr) kind k id t h = set_keeps key addr kind k id t h
after_keeps (id_call j key is_static) kind k id t h = find_keeps j key is_static kind k id t h

run_keeps :
    (cs : List Call) (kind : Kind) (k : Key) (id : ℕ) (t : MemberTable)
    → get_index k (index_of kind t) ≡ some id
    → get_index k (index_of kind (run cs t)) ≡ some id
unfolding run
run_keeps [] kind k id t h = h
run_keeps (c ∷ cs) kind k id t h = run_keeps cs kind k id (after c t) (after_keeps c kind k id t h)

-- the identifier that is given out is in the index
find_enters :
    (kind : Kind) (key : Key) (is_static : Bool) (t : MemberTable)
    → let (id, t') = find_member kind key is_static t in get_index key (index_of kind t') ≡ some id
unfolding find_member
find_enters kind key is_static t = elim (Option-cases (get_index key (index_of kind t))) [
  | inl e ↦
      rw (e, find_member)
        (get_entered kind kind key key is_static t
          ∙ ground (arith, e, same_kind_self kind, same_key_self key))
  | inr (old, e) ↦ rw (e, find_member) e
]

find_again :
    (kind : Kind) (key : Key) (is_static : Bool) (id : ℕ) (t : MemberTable)
    → get_index key (index_of kind t) ≡ some id
    → find_member kind key is_static t ≡ (id, t)
unfolding find_member
find_again kind key is_static id t h = rw (h, find_member) refl

-- Once a method or a field has been given an identifier, in any tables, every later question for
-- it answers the same identifier and changes nothing, whatever was asked for, set and unregistered
-- in between, and also if it is asked for as static where it was not.
pub find_member-run :
    (kind : Kind) (key : Key) (is_static again : Bool) (cs : List Call) (t : MemberTable)
    → let (id, t') = find_member kind key is_static t in
      find_member kind key again (run cs t') ≡ (id, run cs t')
find_member-run kind key is_static again cs t =
    let (id, t') = find_member kind key is_static t in
    find_again kind key again id (run cs t')
      (run_keeps cs kind key id t' (find_enters kind key is_static t))
