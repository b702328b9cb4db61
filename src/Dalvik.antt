-- ===== src/Dalvik.antt =====
-- src/emulite/android/dalvik_vm.py, DalvikVM: the references that native code holds to Java objects.
pub mod Linked
pub mod Valid
pub mod Calls
pub mod Session
pub mod Frames
pub mod Members
pub mod Indexed
pub mod Ids
pub mod Stable
mod Tests
use emulite.Base.{
  ℕ, suc, ◌+◌, ◌-◌, Option, none, some, List, [], ◌∷◌, ◌++◌, Bool, true, false, ◌&&◌, ◌||◌, ltb,
  ◌==◌, if◌then◌else◌,
}
use emulite.Base.Text.{Text, same_text}
use emulite.Base.Dict.{Dict, lookup, contains, insert, erase}

-- A Java object, by its identity (`id`); a JavaClass also has a name, and belongs to this VM, or to
-- another or none.
pub data Object : Type 0 where
  instance_object : ℕ → Object
  own_class : ℕ → Text → Object
  foreign_class : ℕ → Text → Object

abbrev pub identity : Object → ℕ
identity (instance_object i) = i
identity (own_class i name) = i
identity (foreign_class i name) = i

-- `next_identity` is the identity of the next object that the VM makes itself
pub record DalvikVm : Type 0 where
  pub classes : List (Text × Object)
  pub objects : Dict Object
  pub handles : Dict ℕ
  pub local : Dict Object
  pub global : Dict Object
  pub global_refs : Dict ℕ
  pub weak_global : Dict (Unit {0})
  pub next_ref : ℕ
  pub next_identity : ℕ

abbrev pub init : ℕ → DalvikVm
init next_identity = record {
  classes = [];
  objects = [];
  handles = [];
  local = [];
  global = [];
  global_refs = [];
  weak_global = [];
  next_ref = 0x100;
  next_identity = next_identity;
}

abbrev pub get_class : Text → List (Text × Object) → Option Object
get_class name [] = none
get_class name ((n, klass) ∷ rest) = if same_text n name then some klass else get_class name rest

unfoldable pub class_for : Text → DalvikVm → Object × DalvikVm
class_for name vm = elim (get_class name vm.classes) [
  | some klass ↦ (klass, vm)
  | none ↦
      let klass = own_class vm.next_identity name in
      (
        klass,
        record vm {
          classes = vm.classes ++ (name, klass) ∷ [];
          next_identity = suc vm.next_identity;
        },
      )
]

-- a class of another VM stands for the one of that name here
unfoldable pub canonical : Object → DalvikVm → Object × DalvikVm
unfolding class_for
canonical (foreign_class i name) vm = class_for name vm
canonical (instance_object i) vm = (instance_object i, vm)
canonical (own_class i name) vm = (own_class i name, vm)

unfoldable pub enter_handle : Object → DalvikVm → ℕ × DalvikVm
enter_handle obj vm = elim (lookup (identity obj) vm.handles) [
  | some handle ↦ (handle, vm)
  | none ↦ (
    vm.next_ref,
    record vm {
      next_ref = suc vm.next_ref;
      handles = insert (identity obj) vm.next_ref vm.handles;
      objects = insert vm.next_ref obj vm.objects;
    },
  )
]

-- _handle_for
unfoldable pub handle_for : Object → DalvikVm → ℕ × DalvikVm
unfolding canonical enter_handle
handle_for obj vm = let (known, vm') = canonical obj vm in enter_handle known vm'

unfoldable pub add_local : Object → DalvikVm → ℕ × DalvikVm
add_local obj vm =
    let (handle, vm') = handle_for obj vm in
    (handle, record vm' { local = insert handle obj vm'.local })

abbrev pub count_of : ℕ → Dict ℕ → ℕ
count_of ref refs = elim (lookup ref refs) [ none ↦ 0 | some n ↦ n ]

unfoldable pub add_global : Object → DalvikVm → ℕ × DalvikVm
add_global obj vm =
    let (handle, vm') = handle_for obj vm in
    (
      handle,
      record vm' {
        global = insert handle obj vm'.global;
        global_refs = insert handle (count_of handle vm'.global_refs + 1) vm'.global_refs;
      },
    )

unfoldable pub add_weak_global : Object → DalvikVm → ℕ × DalvikVm
add_weak_global obj vm =
    let (handle, vm') = handle_for obj vm in
    (handle, record vm' { weak_global = insert handle tt vm'.weak_global })

unfoldable pub get : ℕ → DalvikVm → Option Object
get ref vm = lookup ref vm.objects

abbrev pub is_referenced : ℕ → DalvikVm → Bool
is_referenced ref vm =
    contains ref vm.local || (contains ref vm.global || contains ref vm.weak_global)

-- _forget
unfoldable pub forget : ℕ → DalvikVm → DalvikVm
forget ref vm = if is_referenced ref vm then vm else elim (lookup ref vm.objects) [
  | none ↦ vm
  | some obj ↦ record vm {
    objects = erase ref vm.objects;
    handles = erase (identity obj) vm.handles;
  }
]

unfoldable pub delete_weak_global : ℕ → DalvikVm → DalvikVm
unfolding forget
delete_weak_global ref vm = forget ref (record vm { weak_global = erase ref vm.weak_global })

unfoldable pub delete_local : ℕ → DalvikVm → DalvikVm
unfolding forget
delete_local ref vm = forget ref (record vm { local = erase ref vm.local })

-- the set of a dict's keys
abbrev pub keys {ℓ} : {V : Type ℓ} → Dict V → List ℕ
keys [] = []
keys ((k, v) ∷ d) = k ∷ keys d

abbrev pub elem : ℕ → List ℕ → Bool
elem x [] = false
elem x (y ∷ ys) = (y == x) || elem x ys

unfoldable pub local_mark : DalvikVm → List ℕ
local_mark vm = keys vm.local

abbrev pub outside : List ℕ → List ℕ → List ℕ
outside mark [] = []
outside mark (r ∷ refs) = if elem r mark then outside mark refs else r ∷ outside mark refs

unfoldable pub delete_each : List ℕ → DalvikVm → DalvikVm
delete_each [] vm = vm
delete_each (r ∷ refs) vm = delete_each refs (delete_local r vm)

unfoldable pub local_release : List ℕ → DalvikVm → DalvikVm
unfolding delete_each
local_release mark vm = delete_each (outside mark (keys vm.local)) vm

unfoldable pub delete_global : ℕ → DalvikVm → DalvikVm
unfolding forget
delete_global ref vm =
    if ltb 1 (count_of ref vm.global_refs)
    then record vm { global_refs = insert ref (count_of ref vm.global_refs - 1) vm.global_refs }
    else forget ref
        (record vm { global_refs = erase ref vm.global_refs; global = erase ref vm.global })

unfoldable pub ref_type : ℕ → DalvikVm → ℕ
ref_type ref vm =
    if contains ref vm.weak_global
    then 3
    else if contains ref vm.global
    then 2
    else if contains ref vm.local
    then 1
    else 0
