-- ===== src/Dalvik/Members.antt =====
-- src/emulite/android/dalvik_vm.py, DalvikVM: the identifiers of methods and fields.
use emulite.Base.{
  ℕ, suc, Option, none, some, List, [], ◌∷◌, ◌++◌, Bool, true, false, ◌&&◌, ◌==◌, not,
  if◌then◌else◌,
}
use emulite.Base.Dict.{Dict, lookup, insert}
use emulite.Base.Text.{Text, same_text}

pub data Kind : Type 0 where
  java_method java_field : Kind

-- (java_class.name, name, signature)
pub record Key : Type 0 where
  pub class_name : Text
  pub name : Text
  pub signature : Text

-- a JavaMethod or a JavaField, with its identity; a field has no native address
pub record Member : Type 0 where
  pub kind : Kind
  pub key : Key
  pub is_static : Bool
  pub native_addr : ℕ
  pub identity : ℕ

abbrev pub Index : Type 0
Index = List (Key × ℕ)

pub record MemberTable : Type 0 where
  pub members : Dict Member
  pub method_index : Index
  pub field_index : Index
  pub member_ids : Dict ℕ
  pub next_id : ℕ
  pub next_identity : ℕ

abbrev pub init : ℕ → MemberTable
init first = record {
  members = [];
  method_index = [];
  field_index = [];
  member_ids = [];
  next_id = 0x9000_0000;
  next_identity = first;
}

abbrev pub same_key : Key → Key → Bool
same_key a b =
    same_text a.class_name b.class_name
    && (same_text a.name b.name && same_text a.signature b.signature)

abbrev pub get_index : Key → Index → Option ℕ
get_index k [] = none
get_index k ((j, id) ∷ rest) = if same_key j k then some id else get_index k rest

abbrev pub index_of : Kind → MemberTable → Index
index_of java_method t = t.method_index
index_of java_field t = t.field_index

abbrev pub with_index : Kind → Index → MemberTable → MemberTable
with_index kind index t = record t {
  method_index = elim kind [ java_method ↦ index | java_field ↦ t.method_index ];
  field_index = elim kind [ java_method ↦ t.field_index | java_field ↦ index ];
}

-- a new member, under the next identifier
unfoldable pub enter_member : Kind → Key → Bool → MemberTable → MemberTable
enter_member kind key is_static t =
    let member : Member = record {
      kind = kind;
      key = key;
      is_static = is_static;
      native_addr = 0;
      identity = t.next_identity;
    } in
    with_index kind (index_of kind t ++ (key, t.next_id) ∷ []) (record t {
      members = insert t.next_id member t.members;
      member_ids = insert t.next_identity t.next_id t.member_ids;
      next_id = suc t.next_id;
      next_identity = suc t.next_identity;
    })

unfoldable pub find_member : Kind → Key → Bool → MemberTable → ℕ × MemberTable
find_member kind key is_static t = elim (get_index key (index_of kind t)) [
  | some id ↦ (id, t)
  | none ↦ (t.next_id, enter_member kind key is_static t)
]

abbrev pub method_id : Key → Bool → MemberTable → ℕ × MemberTable
method_id = find_member java_method

abbrev pub field_id : Key → Bool → MemberTable → ℕ × MemberTable
field_id = find_member java_field

unfoldable pub member : ℕ → MemberTable → Option Member
member member_id t = lookup member_id t.members

unfoldable pub id_of : Member → MemberTable → ℕ
id_of m t = elim (lookup m.identity t.member_ids) [ none ↦ 0 | some id ↦ id ]

abbrev pub is_method : Member → Bool
is_method m = elim (m.kind) [ java_method ↦ true | java_field ↦ false ]

-- setting the address changes the object, which only the table of members holds
unfoldable pub set_native : Key → ℕ → MemberTable → MemberTable
set_native key addr t =
    let (id, t') = method_id key false t in
    elim (lookup id t'.members) [
      | none ↦ t'
      | some m ↦ record t' { members = insert id (record m { native_addr = addr }) t'.members }
    ]

abbrev pub is_registered : Member → Bool
is_registered m = is_method m && not (m.native_addr == 0)

unfoldable pub registered_in : Dict Member → List Member
registered_in [] = []
registered_in ((id, m) ∷ rest) =
    if is_registered m then m ∷ registered_in rest else registered_in rest

abbrev pub registered_natives : MemberTable → List Member
registered_natives t = registered_in t.members

abbrev pub unregistered : Text → Member → Member
unregistered class_name m =
    if is_method m && same_text m.key.class_name class_name then record m { native_addr = 0 } else m

unfoldable pub unregister_in : Text → Dict Member → Dict Member
unregister_in class_name [] = []
unregister_in class_name ((id, m) ∷ rest) =
    (id, unregistered class_name m) ∷ unregister_in class_name rest

abbrev pub unregister_natives : Text → MemberTable → MemberTable
unregister_natives class_name t = record t { members = unregister_in class_name t.members }
