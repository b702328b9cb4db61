-- ===== src/Files/Epoll/Tests.antt =====
-- The theorems on epolls, at a table with a live, an idle and a stale watch.
use emulite.Base.{
  ℕ, ◌≡◌, ◌↔◌, refl, Option, none, some, [], ◌∷◌, ◌+◌, Bool, true, ◌==◌, if◌then◌else◌,
}
use emulite.Base.Dict.{lookup}
use emulite.Files.Epoll.{
  Watch, Watched, op_add, op_delete, eexist, enoent, control, ready_each, ready, can_read,
}
use emulite.Files.Epoll.Ready.{IsDue, IsKept, ready_lem}

-- descriptor 3 has description 30, 4 has 40, and 5 has been opened again
abbrev handles : ℕ → Option ℕ
handles fd =
    if fd == 3 then some 30 else if fd == 4 then some 40 else if fd == 5 then some 51 else none

abbrev readable : ℕ → Bool
readable handle = handle == 30

abbrev watching : ℕ → Watch
watching handle = record { handle = handle; events = 1; user_data = handle + 7 }

abbrev table : Watched
table = (5, watching 50) ∷ (3, watching 30) ∷ (4, watching 40) ∷ []

ready_test :
    ready handles readable table ≡ ((3, (1, 37)) ∷ [], (3, watching 30) ∷ (4, watching 40) ∷ [])
unfolding ready ready_each
ready_test = refl

can_read_test : (can_read handles readable table).0 ≡ true
unfolding can_read ready ready_each
can_read_test = refl

add_twice_test : control op_add 3 (watching 31) table ≡ (eexist, table)
unfolding control
add_twice_test = refl

delete_absent_test : control op_delete 6 (watching 31) table ≡ (enoent, table)
unfolding control
delete_absent_test = refl

ready_lem_example :
    ((lookup 3 (ready handles readable table).0 ≡ some (1, 37))
      ↔ IsDue handles readable 3 (lookup 3 table) (1, 37))
    × ((lookup 3 (ready handles readable table).1 ≡ some (watching 30))
        ↔ IsKept handles readable 3 (lookup 3 table) (watching 30))
ready_lem_example = ready_lem handles readable 3 1 37 (watching 30) table (refl, (refl, (refl, tt)))
