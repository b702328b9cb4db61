-- ===== src/Dalvik/Tests.antt =====
-- The theorems on the VM, at concrete calls.
use emulite.Base.{◌≡◌, none, List, [], ◌∷◌, ◌++◌, true, false, if◌then◌else◌}
use emulite.Base.Dict.{lookup}
use emulite.Dalvik.{
  DalvikVm, init, instance_object, foreign_class, get, is_referenced, local_release, elem,
}
use emulite.Dalvik.Valid.{IsValid}
use emulite.Dalvik.Session.{
  Call, local_call, global_call, weak_call, delete_global_call, release_call, run_refs,
  run_refs-IsValid,
}
use emulite.Dalvik.Frames.{local_release_keeps}
use emulite.Dalvik.Members.{Key, MemberTable, java_method, java_field, find_member}
use emulite.Dalvik.Members
use emulite.Dalvik.Indexed.{IsIndexed}
use emulite.Dalvik.Ids
use emulite.Dalvik.Ids.{id_call, set_native_call, unregister_call, run-IsIndexed}
use emulite.Dalvik.Stable.{find_member-run}

-- a frame opens after one local reference, and a class of another VM comes by
abbrev frame_calls : List Call
frame_calls =
    local_call (instance_object 1)
    ∷ local_call (foreign_class 2 (65 ∷ []))
    ∷ global_call (instance_object 3)
    ∷ local_call (instance_object 3)
    ∷ global_call (instance_object 3)
    ∷ delete_global_call 0x102
    ∷ weak_call (instance_object 4)
    ∷ []

abbrev open_frame : DalvikVm
open_frame = run_refs frame_calls (init 1000)

run_refs-IsValid_example :
    IsValid (run_refs (release_call (0x100 ∷ []) ∷ delete_global_call 0x102 ∷ []) open_frame)
unfolding run_refs
run_refs-IsValid_example =
    run_refs-IsValid (frame_calls ++ release_call (0x100 ∷ []) ∷ delete_global_call 0x102 ∷ []) 1000

local_release_keeps_example :
    let vm' = local_release (0x100 ∷ []) open_frame in
    (lookup 0x102 vm'.local
      ≡ (if elem 0x102 (0x100 ∷ []) then lookup 0x102 open_frame.local else none))
    × (lookup 0x102 vm'.global ≡ lookup 0x102 open_frame.global)
    × (lookup 0x102 vm'.global_refs ≡ lookup 0x102 open_frame.global_refs)
    × (lookup 0x102 vm'.weak_global ≡ lookup 0x102 open_frame.weak_global)
    × (get 0x102 vm' ≡ (if is_referenced 0x102 vm' then get 0x102 open_frame else none))
local_release_keeps_example =
    local_release_keeps 0x102 (0x100 ∷ []) open_frame (run_refs-IsValid frame_calls 1000)

abbrev to_string : Key
to_string = record { class_name = 65 ∷ []; name = 66 ∷ []; signature = 40 ∷ 41 ∷ 86 ∷ [] }

abbrev size_field : Key
size_field = record { class_name = 65 ∷ []; name = 67 ∷ []; signature = 73 ∷ [] }

abbrev member_calls : List Ids.Call
member_calls =
    id_call java_field size_field false
    ∷ set_native_call to_string 0x4000
    ∷ unregister_call (65 ∷ [])
    ∷ id_call java_method size_field true
    ∷ []

run-IsIndexed_example : IsIndexed (Ids.run member_calls (Members.init 50))
run-IsIndexed_example = run-IsIndexed member_calls 50

find_member-run_example :
    find_member java_method to_string true
      (Ids.run member_calls (find_member java_method to_string false (Members.init 50)).1)
    ≡ (
      0x9000_0000,
      Ids.run member_calls (find_member java_method to_string false (Members.init 50)).1,
    )
unfolding find_member
find_member-run_example =
    find_member-run java_method to_string false true member_calls (Members.init 50)
